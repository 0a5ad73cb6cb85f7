-- ===== src/Agents/Removal.antt =====
-- What a removal does to the list of agents, by the place of the agent.
use mathlib.Core.List.{append-nil, map-append}
use swap_it_registry_module.Prelude.{
  ℕ, zero, suc, ◌+◌, ◌-◌, ◌%◌, ◌<◌, ◌≡◌, refl, sym, ◌∙◌, ap, false, Option-cases, inl, inr, none,
  some, ◌>>=◌, bind_assoc, List, [], ◌∷◌, ◌++◌, map, Bytes, string_equal, string_equal_self, take,
  length, length-append, All, arith,
}
use swap_it_registry_module.Agents.{append_agent, remove_agent, size_mod}
use swap_it_registry_module.Agents.Shift.{
  Entry, from_entries, overwrite, remove_agent_lem, remove_agent-none,
}

module _ {C : Type 0} where
  -- No entry has the URL.
  abbrev pub IsAbsent : Bytes → List (Entry C) → Type 0
  IsAbsent url entries = All (λ (e : Entry C). string_equal e.1 url ≡ false) entries

  overwrite-IsAbsent :
      (url : Bytes) (entries : List (Entry C))
      → IsAbsent url entries
      → overwrite url entries ≡ some entries
  overwrite-IsAbsent url [] h = refl
  overwrite-IsAbsent url (e ∷ entries) h = rw (h.0, overwrite-IsAbsent url entries h.1) refl

  overwrite-append :
      (url : Bytes) (xs ys : List (Entry C))
      → IsAbsent url xs
      → overwrite url (xs ++ ys) ≡ (overwrite url ys >>= λ kept. some (xs ++ kept))
  overwrite-append url [] ys h = elim (Option-cases (overwrite url ys)) [
    | inl e ↦ rw e refl
    | inr (kept, e) ↦ rw e refl
  ]
  overwrite-append url (x ∷ xs) ys h =
      rw (h.0, overwrite-append url xs ys h.1)
        (sym (bind_assoc (overwrite url ys) (λ kept. some (xs ++ kept)) λ kept. some (x ∷ kept)))

  take-append-more :
      (xs ys : List (Entry C)) (n k : ℕ) → n ≡ length xs + k → take n (xs ++ ys) ≡ xs ++ take k ys
  take-append-more [] ys n k h = rw h (ap (λ j. take j ys) (omega arith))
  take-append-more (x ∷ xs) ys zero k h = absurd (omega arith)
  take-append-more (x ∷ xs) ys (suc n) k h = ap (◌∷◌ x) (take-append-more xs ys n k (omega arith))

  -- An agent that has others behind it: the one behind it takes its place and keeps its own, and the
  -- last agent is lost. So only the last but one is removed as it should be.
  pub remove_agent_before :
      (c : C) (url : Bytes) (xs ys : List (Entry C)) (e : Entry C)
      → IsAbsent url xs
      → IsAbsent url (e ∷ ys)
      → length (xs ++ (c, url) ∷ e ∷ ys) < size_mod
      → remove_agent url (from_entries (xs ++ (c, url) ∷ e ∷ ys))
        ≡ some (from_entries (xs ++ e ∷ take (length ys) (e ∷ ys)))
  remove_agent_before c url xs ys e hx hy k =
      let entries : List (Entry C) = xs ++ (c, url) ∷ e ∷ ys in
      let long : length entries ≡ length xs + (2 + length ys) =
        omega (arith, length-append xs ((c, url) ∷ e ∷ ys)) in
      remove_agent_lem url entries (xs ++ e ∷ e ∷ ys) (omega (arith, long)) k
        (overwrite-append url xs ((c, url) ∷ e ∷ ys) hx
          ∙ rw (string_equal_self url, hy.0, overwrite-IsAbsent url ys hy.1) refl)
        (omega (arith, long, length-append xs (e ∷ e ∷ ys)))
      ∙ rw
          (take-append-more xs (e ∷ e ∷ ys) (length entries - 1) (suc (length ys))
            (omega (arith, long)))
          refl

  take-map_all {ℓ} :
      {A : Type ℓ} (f : Entry C → A) (entries : List (Entry C))
      → take (length entries) (map f entries) ≡ map f entries
  take-map_all f [] = refl
  take-map_all f (e ∷ entries) = ap (◌∷◌ (f e)) (take-map_all f entries)

  -- A registration puts an entry behind the others.
  pub append_agent_lem :
      (c : C) (url : Bytes) (entries : List (Entry C))
      → length entries + 1 < size_mod
      → append_agent (from_entries entries) c url ≡ from_entries (entries ++ (c, url) ∷ [])
  unfolding append_agent
  append_agent_lem c url entries k =
      rw
        (
          take-map_all (λ (e : Entry C). e.0) entries,
          take-map_all (λ (e : Entry C). e.1) entries,
          map-append (λ (e : Entry C). e.0) entries ((c, url) ∷ []),
          map-append (λ (e : Entry C). e.1) entries ((c, url) ∷ []),
          length-append entries ((c, url) ∷ []),
          small,
        )
        refl
    where
      small : (length entries + 1) % size_mod ≡ length entries + 1
      small = omega arith

  -- The removal of the URL that was registered last, and that no agent had before, is undefined: the
  -- loop reads the entry behind the arrays.
  pub remove-append_agent :
      (c : C) (url : Bytes) (entries : List (Entry C))
      → IsAbsent url entries
      → length entries + 1 < size_mod
      → remove_agent url (append_agent (from_entries entries) c url) ≡ none
  remove-append_agent c url entries h k = rw (append_agent_lem c url entries k) (
      remove_agent-none url (entries ++ (c, url) ∷ [])
        (overwrite-append url entries ((c, url) ∷ []) h ∙ rw (string_equal_self url) refl))

  -- The removal of a URL that no agent has drops the last agent.
  pub remove_agent_absent :
      (url : Bytes) (entries : List (Entry C)) (last : Entry C)
      → IsAbsent url (entries ++ last ∷ [])
      → length entries + 1 < size_mod
      → remove_agent url (from_entries (entries ++ last ∷ [])) ≡ some (from_entries entries)
  remove_agent_absent url entries last h k =
      remove_agent_lem url (entries ++ last ∷ []) (entries ++ last ∷ []) (omega (arith, long))
        (omega (arith, long)) (overwrite-IsAbsent url (entries ++ last ∷ []) h) refl
      ∙ rw
          (
            take-append-more entries (last ∷ []) (length (entries ++ last ∷ []) - 1) 0
                (omega (arith, long)),
            append-nil,
          )
          refl
    where
      long : length (entries ++ last ∷ []) ≡ length entries + 1
      long = length-append entries (last ∷ [])

  -- With no agent registered, a removal makes the number of agents wrap around to the largest
  -- number, with no element behind it.
  pub remove_agent_empty :
      (url : Bytes)
      → remove_agent url (from_entries {C = C} [])
        ≡ some (record { agents = []; agent_url = []; number_agents = size_mod - 1 })
  unfolding remove_agent
  remove_agent_empty url = refl
