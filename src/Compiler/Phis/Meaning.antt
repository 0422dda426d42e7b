-- ===== src/Compiler/Phis/Meaning.antt =====
-- What the end of the processing of PHI nodes in compiler/Symbolizer.cpp makes of each emitted
-- instruction by itself.
use symcc.Common.{
  ℕ, ◌≡◌, Bool, true, false, not, ◌&&◌, ◌||◌, Option, none, some, List, [], ◌∷◌, ◌==◌, is_some,
  if◌then◌else◌, map,
}
use symcc.Compiler.Ir.{pointer}
use symcc.Compiler.Emission.{
  Value, local, null_pointer, emitted, Code, call, select, phi, Emitted, PhiNode, State,
}

-- The PHI nodes of the program, each with the number of its emitted node.
abbrev pub Nodes : Type 0
Nodes = List (ℕ × PhiNode)

abbrev pub absent : ℕ → Nodes → Bool
absent n [] = true
absent n ((m, p) ∷ ps) = not (n == m) && absent n ps

-- The operands and the instructions that are nodes of some kind.
abbrev pub any_operand : (ℕ → Bool) → List Value → Bool
any_operand kind [] = false
any_operand kind (emitted n t ∷ vs) = kind n || any_operand kind vs
any_operand kind (v ∷ vs) = any_operand kind vs

abbrev pub operands : Code → List Value
operands (call f args) = args
operands (select c a b) = c ∷ a ∷ b ∷ []
operands (phi values) = values

abbrev pub any_use : (ℕ → Bool) → List Emitted → Bool
any_use kind [] = false
any_use kind (i ∷ is) = kind i.number || any_operand kind (operands i.code) || any_use kind is

module _ (s : State) where
  -- The emitted node is the expression of the PHI node, and no other has the same.
  abbrev pub AreNodes : Nodes → Type 0
  AreNodes [] = Unit {0}
  AreNodes ((n, p) ∷ ps) =
      (s.symbolic_expressions p.node ≡ some (emitted n pointer))
      × (absent n ps ≡ true)
      × AreNodes ps

  -- The values of the program that are not constants can have an expression.
  abbrev pub expression_of : Value → Option Value
  expression_of (local id t) = s.symbolic_expressions id
  expression_of _ = none

  abbrev pub or_null : Option Value → Value
  or_null none = null_pointer
  or_null (some e) = e

  abbrev pub any_symbolic : List Value → Bool
  any_symbolic [] = false
  any_symbolic (v ∷ vs) = is_some (expression_of v) || any_symbolic vs

  abbrev pub all_expressions : List Value → List Value
  all_expressions [] = []
  all_expressions (v ∷ vs) = or_null (expression_of v) ∷ all_expressions vs

  -- Is this a node for values without any expression?
  abbrev pub is_constant_node : Nodes → ℕ → Bool
  is_constant_node [] number = false
  is_constant_node ((n, p) ∷ ps) number =
      (n == number) && not (any_symbolic p.incoming) || is_constant_node ps number

  -- Any other node gets the expressions of its incoming values.
  abbrev pub with_incoming : Nodes → (number : ℕ) → Code → Code
  with_incoming [] number code = code
  with_incoming ((n, p) ∷ ps) number code =
      if (number == n) && any_symbolic p.incoming
      then phi (all_expressions p.incoming)
      else with_incoming ps number code

  -- An operand that is a constant node becomes null.
  abbrev pub operand : Nodes → Value → Value
  operand ps (emitted n t) = if is_constant_node ps n then null_pointer else emitted n t
  operand ps v = v

  abbrev pub with_null : Nodes → Code → Code
  with_null ps (call f args) = call f (map (operand ps) args)
  with_null ps (select c a b) = select (operand ps c) (operand ps a) (operand ps b)
  with_null ps (phi values) = phi (map (operand ps) values)

  abbrev pub kept_instructions : Nodes → List Emitted → List Emitted
  kept_instructions ps [] = []
  kept_instructions ps (i ∷ is) =
      let rest = kept_instructions ps is in
      if is_constant_node ps i.number
      then rest
      else record i { code = with_null ps (with_incoming ps i.number i.code) } ∷ rest
