-- ===== src/Script.antt =====
-- A script's program with the settings of a run (Program and its With methods in
-- internal/script/script.go), and the functions that scenarios name (WithExecs in exec.go, with the
-- check at the beginning of NewVUExec). The compiled code and the data of setup are parameters, and
-- so are esbuild's list of the exports, the compiler and slices.Sort.
pub mod Prepared
mod Tests
use Prim.Native.String.{String}
use text.Mathlib.Text.{◌==◌ as str_eq}
use loadtool.Prelude.{
  List, [], ◌∷◌, ◌++◌, Option, none, some, Bool, true, false, ◌&&◌, ◌||◌, not, if◌then◌else◌,
}
use loadtool.Prelude.Result.{Result, ok, err, ◌>>=◌, ◌>>◌}

pub record Program (Code Data : Type 0) : Type 0 where
  pub code : Code
  pub execs : List String
  pub discard_bodies : Bool
  pub keep_cookies : Bool
  pub setup_data : Option Data

-- slices.Contains
abbrev pub has : List String → String → Bool
has [] name = false
has (n ∷ ns) name = str_eq n name || has ns name

-- The loop that leaves out the default export and repeated names.
abbrev pub distinct : List String → List String → List String
distinct execs [] = execs
distinct execs (n ∷ ns) =
    distinct (if not (str_eq n "default") && not (has execs n) then execs ++ (n ∷ []) else execs) ns

-- The first name that is not exported.
abbrev pub missing : List String → List String → Option String
missing exports [] = none
missing exports (n ∷ ns) = let rest = missing exports ns in if has exports n then rest else some n

-- An exec that is not exported, or a failure of esbuild or of the compiler.
pub data ExecError (Failure : Type 0) : Type 0 where
  not_exported : String → ExecError Failure
  not_compiled : Failure → ExecError Failure

abbrev pub compile_error : {Failure A : Type 0} → Result Failure A → Result (ExecError Failure) A
compile_error (ok a) = ok a
compile_error (err f) = err (not_compiled f)

abbrev pub refuse_missing :
    {Failure : Type 0} → Option String → Result (ExecError Failure) (Unit {0})
refuse_missing none = ok tt
refuse_missing (some n) = err (not_exported n)

module _ {Code Data : Type 0} where
  -- The program before any setting.
  abbrev pub loaded : Code → Program Code Data
  loaded code = record {
    code = code;
    execs = [];
    discard_bodies = false;
    keep_cookies = false;
    setup_data = none;
  }

  abbrev pub with_setup_data : Option Data → Program Code Data → Program Code Data
  with_setup_data data_ p = record p { setup_data = data_ }

  abbrev pub with_keep_cookies : Bool → Program Code Data → Program Code Data
  with_keep_cookies keep p = record p { keep_cookies = keep }

  abbrev pub with_discard_response_bodies : Bool → Program Code Data → Program Code Data
  with_discard_response_bodies discard p = record p { discard_bodies = discard }

  -- The copy that NewLifecycle runs as VU 0: bodies are kept there.
  abbrev pub lifecycle_program : Program Code Data → Program Code Data
  lifecycle_program p = record p { discard_bodies = false; setup_data = none }

  -- WithExecs after its first loop, on the sorted names.
  abbrev pub with_sorted :
      {Failure : Type 0}
      → (Code → Result Failure (List String))
      → (Code → List String → Result Failure Code)
      → Program Code Data
      → List String
      → Result (ExecError Failure) (Program Code Data)
  with_sorted exports compile p names = compile_error (exports p.code) >>= λ exported.
      refuse_missing (missing exported names) >> compile_error (compile p.code names) >>= λ code.
      ok (record p { code = code; execs = names })

  abbrev pub with_distinct :
      {Failure : Type 0}
      → (List String → List String)
      → (Code → Result Failure (List String))
      → (Code → List String → Result Failure Code)
      → Program Code Data
      → List String
      → Result (ExecError Failure) (Program Code Data)
  with_distinct sort exports compile p [] = ok p
  with_distinct sort exports compile p (n ∷ ns) = with_sorted exports compile p (sort (n ∷ ns))

  unfoldable pub with_execs :
      {Failure : Type 0}
      → (List String → List String)
      → (Code → Result Failure (List String))
      → (Code → List String → Result Failure Code)
      → Program Code Data
      → List String
      → Result (ExecError Failure) (Program Code Data)
  with_execs sort exports compile p names = with_distinct sort exports compile p (distinct [] names)

  -- The first test of NewVUExec: an exec must be the default export or prepared.
  abbrev pub is_prepared : Program Code Data → String → Bool
  is_prepared p exec = str_eq exec "default" || has p.execs exec
