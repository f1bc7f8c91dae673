-- ===== src/Utils/Split.antt =====
-- `utils_split_string` of daemon/utils.c. The static `head` is explicit state, NULL at first, and
-- points into the text of the caller, which the NUL that the call writes cuts at the token's end.
pub mod Tokens
use isoft_package_installer.Base.{
  ℕ, zero, suc, ◌+◌, Option, none, some, List, [], ◌∷◌, Bytes, strstr, length, take, drop,
}

-- A call returns a token or NULL and leaves a new `head`, or it reads through a NULL `head`.
pub data Split : Type 0 where
  fault : Split
  returned : Option Bytes → Bytes → Split

-- The body, on the text that `head` points to.
unfoldable pub split_head : Bytes → Bytes → Split
split_head needle [] = returned none []
split_head needle (c ∷ cs) = elim (strstr needle (c ∷ cs)) [
  | none ↦ returned (some (c ∷ cs)) []
  | some k ↦ returned (some (take k (c ∷ cs))) (drop (k + length needle) (c ∷ cs))
]

-- `utils_split_string (str, needle)`, with the static `head` as the last argument.
unfoldable pub utils_split_string : Option Bytes → Bytes → Option Bytes → Split
unfolding split_head
utils_split_string (some str) needle head = split_head needle str
utils_split_string none needle (some head) = split_head needle head
utils_split_string none needle none = fault

-- The tokens of the calls `utils_split_string (NULL, needle)` up to the first NULL, from a given
-- `head`; `none` if the fuel runs out or a call faults.
unfoldable pub split_all : ℕ → Bytes → Option Bytes → Option (List Bytes)
unfolding utils_split_string
split_all zero needle head = none
split_all (suc fuel) needle head = elim (utils_split_string none needle head) [
  | fault ↦ none
  | returned none _ ↦ some []
  | returned (some token) rest ↦ elim (split_all fuel needle (some rest)) [
    | none ↦ none
    | some tokens ↦ some (token ∷ tokens)
  ]
]
