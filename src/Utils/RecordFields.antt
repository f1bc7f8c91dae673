-- ===== src/Utils/RecordFields.antt =====
-- The fields of a record in the file of updates.
use isoft_package_installer.Utils.Records.{log_file_filter, record_line}
use isoft_package_installer.Base.{
  ◌==◌, Bytes, starts_with, strstr, length, All, ◌≡◌, refl, false, none, some, [], ◌∷◌, ◌++◌, ℕ,
  suc, ◌≢◌, Option, List, arith, is_digit, decimal, decimal-IsNumeric, take, drop, length-append,
  take-append_length, drop-append_eq, ℤ, pos, negsuc, decimal_int, ◌+◌, sym, ap, ◌∙◌, true,
  append_assoc,
}
use isoft_package_installer.Utils.Split.{split_head, utils_split_string, split_all, returned}

-- No byte of the text begins the filter.
abbrev pub IsBarless : Bytes → Type 0
IsBarless s = All (λ c. (c == b'|') ≡ false) s

strstr-barless : (s : Bytes) → IsBarless s → strstr log_file_filter s ≡ none
unfolding strstr starts_with
strstr-barless [] h = refl
strstr-barless (c ∷ s) h = ground (arith, h.0, strstr-barless s h.1)

strstr-filter :
    (s rest : Bytes)
    → IsBarless s
    → strstr log_file_filter (s ++ (log_file_filter ++ rest)) ≡ some (length s)
unfolding strstr starts_with
strstr-filter [] rest h = refl
strstr-filter (c ∷ s) rest h = ground (arith, h.0, strstr-filter s rest h.1)

drop_filter :
    (s rest : Bytes)
    → drop (length s + length log_file_filter) (s ++ (log_file_filter ++ rest)) ≡ rest
drop_filter s rest =
    ap (drop (length s + length log_file_filter)) (sym (append_assoc s log_file_filter rest))
    ∙ drop-append_eq (length s + length log_file_filter) (s ++ log_file_filter) rest
        (omega (arith, length-append s log_file_filter))

split_head-found :
    (t : Bytes) (k : ℕ)
    → t ≢ []
    → strstr log_file_filter t ≡ some k
    → split_head log_file_filter t
      ≡ returned (some (take k t)) (drop (k + length log_file_filter) t)
unfolding split_head
split_head-found [] k e h = absurd (e refl)
split_head-found (c ∷ t) k e h = rw (h, split_head) refl

field_then_filter : (s rest : Bytes) → s ++ (log_file_filter ++ rest) ≢ []
field_then_filter [] rest e = cc
field_then_filter (c ∷ s) rest e = cc

-- One call on a text that begins with a field.
split_head-filter :
    (s rest : Bytes)
    → IsBarless s
    → split_head log_file_filter (s ++ (log_file_filter ++ rest)) ≡ returned (some s) rest
split_head-filter s rest h =
    split_head-found (s ++ (log_file_filter ++ rest)) (length s) (field_then_filter s rest)
      (strstr-filter s rest h)
    ∙ rw (take-append_length s (log_file_filter ++ rest)) (rw (drop_filter s rest) refl)

abbrev cons_token : Bytes → Option (List Bytes) → Option (List Bytes)
cons_token t none = none
cons_token t (some ts) = some (t ∷ ts)

split_all-filter :
    (f : ℕ) (s rest : Bytes)
    → IsBarless s
    → split_all (suc f) log_file_filter (some (s ++ (log_file_filter ++ rest)))
      ≡ cons_token s (split_all f log_file_filter (some rest))
unfolding split_all utils_split_string
split_all-filter f s rest h =
    rw (split_head-filter s rest h, split_all) (join (split_all f log_file_filter (some rest)))
  where
    join :
        (o : Option (List Bytes))
        → elim o [ none ↦ none | some ts ↦ some (s ∷ ts) ] ≡ cons_token s o
    join none = refl
    join (some ts) = refl

-- The last field.
split_all-last :
    (f : ℕ) (s : Bytes)
    → IsBarless s
    → s ≢ []
    → split_all (suc (suc f)) log_file_filter (some s) ≡ some (s ∷ [])
unfolding split_all utils_split_string split_head
split_all-last f [] h e = absurd (e refl)
split_all-last f (c ∷ s) h e = rw (strstr-barless (c ∷ s) h, split_all) refl

number-IsBarless : (s : Bytes) → All (λ c. is_digit c ≡ true) s → IsBarless s
number-IsBarless [] h = tt
number-IsBarless (c ∷ s) h = (ground (arith, h.0), number-IsBarless s h.1)

decimal_int-IsBarless : (z : ℤ) → IsBarless (decimal_int z)
unfolding decimal_int
decimal_int-IsBarless (pos n) = number-IsBarless (decimal n) (decimal-IsNumeric n)
decimal_int-IsBarless (negsuc n) =
    (refl, number-IsBarless (decimal (suc n)) (decimal-IsNumeric (suc n)))

-- A record whose name, type, date and time hold no bar: `utils_split_string` with the filter of the
-- file gives back its name, its state in decimal, whichever integer it is, its type, and the date
-- and the time up to the newline, and then NULL.
pub split_all-record_line :
    (upt_name type datestr timestr : Bytes) (state : ℤ)
    → IsBarless upt_name
    → IsBarless type
    → IsBarless (datestr ++ (b' ' ∷ (timestr ++ (b'\n' ∷ []))))
    → split_all 5 log_file_filter (some (record_line upt_name type state datestr timestr))
      ≡ some (
          upt_name
          ∷ decimal_int state
          ∷ type
          ∷ (datestr ++ (b' ' ∷ (timestr ++ (b'\n' ∷ []))))
          ∷ [])
unfolding record_line
split_all-record_line upt_name type datestr timestr state h g k =
    split_all-filter 4 upt_name _ h
    ∙ (ap (cons_token upt_name)
          (split_all-filter 3 (decimal_int state) _ (decimal_int-IsBarless state))
        ∙ (ap (λ o. cons_token upt_name (cons_token (decimal_int state) o))
              (split_all-filter 2 type _ g)
            ∙ ap (λ o. cons_token upt_name (cons_token (decimal_int state) (cons_token type o)))
                (split_all-last 0 _ k (λ e. no_end datestr e))))
  where
    no_end : (s : Bytes) → s ++ (b' ' ∷ (timestr ++ (b'\n' ∷ []))) ≢ []
    no_end [] e = cc
    no_end (c ∷ s) e = cc
