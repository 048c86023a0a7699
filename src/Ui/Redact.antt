-- ===== src/Ui/Redact.antt =====
-- The redactor (internal/ui/redact.go). sort.Slice is an insertion sort here; it does not fix the
-- order of secrets of the same length, and no theorem depends on it.
pub mod Masked
use loadtool.Prelude.{
  ℕ, zero, suc, ◌-◌, List, [], ◌∷◌, ◌++◌, Bool, leb, if◌then◌else◌, length, Bytes, codes,
  starts_with,
}

abbrev pub min_secret : ℕ
min_secret = 3

-- The secrets, longest first.
pub record Redactor : Type 0 where
  pub secrets : List Bytes

-- Before the first that is not longer.
unfoldable pub insert_longest : Bytes → List Bytes → List Bytes
insert_longest s [] = s ∷ []
insert_longest s (t ∷ ts) =
    let rest = insert_longest s ts in if leb (length t) (length s) then s ∷ t ∷ ts else t ∷ rest

unfoldable pub keep_secrets : List Bytes → List Bytes
keep_secrets [] = []
keep_secrets (s ∷ ss) =
    let rest = keep_secrets ss in if leb min_secret (length s) then insert_longest s rest else rest

unfoldable pub new_redactor : List Bytes → Redactor
new_redactor secrets = record { secrets = keep_secrets secrets }

abbrev pub mask : Bytes
mask = codes "***"

-- strings.ReplaceAll of `old`, which is not empty, by the mask: the first argument counts the bytes
-- of the occurrence that are still to be passed over.
unfoldable pub replace_from : ℕ → Bytes → Bytes → Bytes
replace_from skip old [] = []
replace_from (suc skip) old (c ∷ s) = replace_from skip old s
replace_from zero old (c ∷ s) =
    let found = replace_from (length old - 1) old s in
    let rest = replace_from zero old s in
    if starts_with old (c ∷ s) then mask ++ found else c ∷ rest

unfoldable pub replace_each : List Bytes → Bytes → Bytes
replace_each [] s = s
replace_each (v ∷ vs) s = replace_each vs (replace_from 0 v s)

-- redactor.text; redactor.bytes is the same on the bytes of a report.
unfoldable pub redact : Redactor → Bytes → Bytes
redact r s = replace_each r.secrets s
