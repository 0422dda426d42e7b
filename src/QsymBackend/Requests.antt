-- ===== src/QsymBackend/Requests.antt =====
-- The functions of runtime/qsym_backend/Runtime.cpp that build expressions, as requests with the
-- expressions that they take.
use symcc.Common.{ℕ, Bool, true, ◌&&◌, List, [], ◌∷◌, is_some}
use symcc.Common.Assoc.{lookup}
use symcc.QsymBackend.{
  Qsym, QsymState, QsymRun, BinaryOp, build_integer, build_integer128, build_null_pointer,
  build_true, build_false, build_bool, build_binary, build_neg, build_not, build_sext, build_zext,
  build_trunc, concat_helper, extract_helper, build_bool_to_bit,
}
use symcc.QsymBackend.Inputs.{get_input_byte}

pub data Request : Type 0 where
  integer : (value bits : ℕ) → Request
  integer128 : (high low : ℕ) → Request
  null_pointer true_expr false_expr : Request
  bool : Bool → Request
  input_byte : (offset value : ℕ) → Request
  neg complement bool_to_bit : ℕ → Request
  binary : BinaryOp → ℕ → ℕ → Request
  sext zext trunc : (expr bits : ℕ) → Request
  concat : ℕ → ℕ → Request
  extract : (expr first_bit last_bit : ℕ) → Request

abbrev pub operands : Request → List ℕ
operands (integer v w) = []
operands (integer128 h l) = []
operands null_pointer = []
operands true_expr = []
operands false_expr = []
operands (bool b) = []
operands (input_byte o v) = []
operands (neg e) = e ∷ []
operands (complement e) = e ∷ []
operands (bool_to_bit e) = e ∷ []
operands (binary op a b) = a ∷ b ∷ []
operands (sext e w) = e ∷ []
operands (zext e w) = e ∷ []
operands (trunc e w) = e ∷ []
operands (concat a b) = a ∷ b ∷ []
operands (extract e f l) = e ∷ []

module _ (Q : Qsym) where
  abbrev pub build : Request → QsymRun Q ℕ
  build (integer v w) = build_integer Q v w
  build (integer128 h l) = build_integer128 Q h l
  build null_pointer = build_null_pointer Q
  build true_expr = build_true Q
  build false_expr = build_false Q
  build (bool b) = build_bool Q b
  build (input_byte o v) = get_input_byte Q o v
  build (neg e) = build_neg Q e
  build (complement e) = build_not Q e
  build (bool_to_bit e) = build_bool_to_bit Q e
  build (binary op a b) = build_binary Q op a b
  build (sext e w) = build_sext Q e w
  build (zext e w) = build_zext Q e w
  build (trunc e w) = build_trunc Q e w
  build (concat a b) = concat_helper Q a b
  build (extract e f l) = extract_helper Q e f l

  -- A raw pointer for which the backend has a shared one.
  abbrev pub is_registered : QsymState Q → ℕ → Bool
  is_registered s x = is_some (lookup x s.allocated_expressions)

  abbrev pub all_registered : QsymState Q → List ℕ → Bool
  all_registered s [] = true
  all_registered s (x ∷ xs) = is_registered s x && all_registered s xs
