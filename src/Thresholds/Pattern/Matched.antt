-- ===== src/Thresholds/Pattern/Matched.antt =====
-- The scan against the language.
use loadtool.Prelude.{◌≡◌, ◌↔◌, some, Bytes}
use loadtool.Thresholds.Pattern.{Match, match_expr}
use loadtool.Thresholds.Pattern.Grammar.{Spelled}
use loadtool.Thresholds.Pattern.Read.{match_expr-Spelled}
use loadtool.Thresholds.Pattern.Found.{Spelled-match_expr}

-- The scan finds a match exactly if the text is spelled as the regular expression says: blanks, an
-- aggregate or p(N), blanks, an operator, blanks, a number and blanks. It captures these parts.
pub match_expr_iff : (s : Bytes) (m : Match) → (match_expr s ≡ some m) ↔ Spelled m s
match_expr_iff s m = (match_expr-Spelled s m, Spelled-match_expr s m)
