-- ===== src/Compiler/Phis.antt =====
-- `finalizePHINodes` of compiler/Symbolizer.cpp: the incoming values of the dummy nodes are filled in, and
-- the nodes without a symbolic one replaced by null.
pub mod Meaning
pub mod Finished
use symcc.Common.{
  ℕ, Bool, true, false, not, ◌&&◌, Option, none, some, List, [], ◌∷◌, ◌==◌, is_some, if◌then◌else◌,
  map, ◌||◌, ◌>>=◌,
}
use symcc.Compiler.Emission.{
  Value, null_pointer, emitted, Code, call, select, phi, Emitted, PhiNode, State,
  get_symbolic_expression, get_symbolic_expression_or_null,
}

-- The number of the emitted node that is the expression of a PHI node; a cast of the source
-- asserts that there is one.
abbrev pub emitted_number : Option Value → Option ℕ
emitted_number (some (emitted n t)) = some n
emitted_number _ = none

unfoldable pub all_incoming_null : State → List Value → Bool
all_incoming_null s [] = true
all_incoming_null s (v ∷ vs) = not (is_some (get_symbolic_expression s v)) && all_incoming_null s vs

-- `setIncomingValue`, for all incoming values of one node.
unfoldable pub set_incoming : (number : ℕ) → List Value → List Emitted → List Emitted
set_incoming number values [] = []
set_incoming number values (i ∷ is) =
    (if i.number == number then record i { code = phi values } else i)
    ∷ set_incoming number values is

-- The loop over the nodes, with the nodes to erase.
unfoldable pub fill_nodes :
    State → List PhiNode → List Emitted → (nodes_to_erase : List ℕ) → Option (List Emitted × List ℕ)
fill_nodes s [] code erased = some (code, erased)
fill_nodes s (p ∷ ps) code erased = emitted_number (s.symbolic_expressions p.node) >>= λ number.
    (if all_incoming_null s p.incoming
      then fill_nodes s ps code (number ∷ erased)
      else fill_nodes s ps
          (set_incoming number (map (get_symbolic_expression_or_null s) p.incoming) code) erased)

unfoldable pub is_erased : List ℕ → ℕ → Bool
is_erased [] number = false
is_erased (n ∷ ns) number = n == number || is_erased ns number

-- `replaceAllUsesWith` null, for the nodes to erase.
unfoldable pub replace_value : List ℕ → Value → Value
replace_value erased (emitted n t) = if is_erased erased n then null_pointer else emitted n t
replace_value erased v = v

unfoldable pub replace_uses : List ℕ → Code → Code
replace_uses erased (call f args) = call f (map (replace_value erased) args)
replace_uses erased (select c a b) =
    select (replace_value erased c) (replace_value erased a) (replace_value erased b)
replace_uses erased (phi values) = phi (map (replace_value erased) values)

unfoldable pub erase_nodes : List ℕ → List Emitted → List Emitted
erase_nodes erased [] = []
erase_nodes erased (i ∷ is) =
    let rest = erase_nodes erased is in
    if is_erased erased i.number
    then rest
    else record i { code = replace_uses erased i.code } ∷ rest

unfoldable pub finalize_phi_nodes : State → Option State
finalize_phi_nodes s = do
  (code, erased) ← fill_nodes s s.phi_nodes s.code []
  some (record s { code = erase_nodes erased code; symbolic_expressions = λ id. none })
