-- ===== src/Examples/Agents.antt =====
-- A list of agents, with numbers for configurations.
use swap_it_registry_module.Prelude.{
  ℕ, ◌≡◌, refl, none, some, List, [], ◌∷◌, codes, string_equal, arith,
}
use swap_it_registry_module.Agents.{append_agent, remove_agent}
use swap_it_registry_module.Agents.Shift.{Entry, from_entries}
use swap_it_registry_module.Agents.Removal.{
  IsAbsent, remove-append_agent, remove_agent_before, remove_agent_absent,
}

abbrev two : List (Entry ℕ)
two = (1, codes "a:1") ∷ (2, codes "b:1") ∷ []

two-IsAbsent : IsAbsent (codes "c:1") two
unfolding string_equal
two-IsAbsent = (refl, (refl, tt))

remove-append_agent_example :
    remove_agent (codes "c:1") (append_agent (from_entries two) 3 (codes "c:1")) ≡ none
remove-append_agent_example = remove-append_agent 3 (codes "c:1") two two-IsAbsent (omega arith)

-- The first of three is removed: the second is there twice, and the third is lost.
remove_agent_before_example :
    remove_agent {C = ℕ}
      (codes "c:1")
      (from_entries ((3, codes "c:1") ∷ (1, codes "a:1") ∷ (2, codes "b:1") ∷ []))
    ≡ some (from_entries ((1, codes "a:1") ∷ (1, codes "a:1") ∷ []))
remove_agent_before_example =
    remove_agent_before 3 (codes "c:1") [] ((2, codes "b:1") ∷ []) (1, codes "a:1") tt two-IsAbsent
      (omega arith)

remove_agent_absent_example :
    remove_agent (codes "c:1") (from_entries two) ≡ some (from_entries ((1, codes "a:1") ∷ []))
remove_agent_absent_example =
    remove_agent_absent (codes "c:1") ((1, codes "a:1") ∷ []) (2, codes "b:1") two-IsAbsent
      (omega arith)
