-- ===== src/Agents/Shift.antt =====
-- The arrays seen as one list of entries, and the loop of a removal on that list.
use mathlib.Core.List.{append_assoc}
use swap_it_registry_module.Prelude.{
  ℕ, ◌+◌, ◌-◌, ◌<◌, ◌≡◌, refl, sym, ◌∙◌, ap, Option, none, some, ◌>>=◌, bind_assoc, List, [], ◌∷◌,
  ◌++◌, map, Bytes, string_equal, get_elem?, head?, set, take, length, length-append,
  length-take_of_le, take-map, get_elem?-map_at, get_elem?-map_after, set-map_at, arith,
  if◌then◌else◌, Bool-cases, inl, inr,
}
use swap_it_registry_module.Agents.{
  AgentList, shift_agent, shift_agents, remove_agent, size_mod, size_pred,
}

-- An entry: the configuration of an agent and its URL.
abbrev pub Entry : Type 0 → Type 0
Entry C = C × Bytes

module _ {C : Type 0} where
  abbrev pub from_entries : List (Entry C) → AgentList C
  from_entries entries = record {
    agents = map (λ (e : Entry C). e.0) entries;
    agent_url = map (λ (e : Entry C). e.1) entries;
    number_agents = length entries;
  }

  -- Each entry with the URL is overwritten by the entry behind it, if there is one.
  abbrev pub overwrite : Bytes → List (Entry C) → Option (List (Entry C))
  overwrite url [] = some []
  overwrite url (e ∷ entries) =
      let rest = overwrite url entries in
      (if string_equal e.1 url then head? entries else some e) >>= λ e'.
      rest >>= λ kept. some (e' ∷ kept)

  -- The body of the loop at the position behind `done`.
  shift_at :
      (url : Bytes) (done rest : List (Entry C)) (e : Entry C)
      → shift_agent url (length done) (from_entries (done ++ e ∷ rest)) ≡ (
          (if string_equal e.1 url then head? rest else some e) >>= λ e'.
          some (from_entries (done ++ e' ∷ rest)))
  unfolding shift_agent
  shift_at url done rest e =
      rw (get_elem?-map_at (λ (x : Entry C). x.1) done rest e)
        (elim (Bool-cases (string_equal e.1 url)) [
          | inl hit ↦
              rw
                (
                  hit,
                  get_elem?-map_after (λ (x : Entry C). x.1) done rest e,
                  get_elem?-map_after (λ (x : Entry C). x.0) done rest e,
                )
                (overwritten rest)
          | inr miss ↦ rw miss refl
        ])
    where
      same_length :
          (z : Entry C) (r : List (Entry C)) → length (done ++ e ∷ r) ≡ length (done ++ z ∷ r)
      same_length z r = rw (length-append done (e ∷ r), length-append done (z ∷ r)) refl

      overwritten :
          (r : List (Entry C))
          → (get_elem? (map (λ (x : Entry C). x.0) r) 0 >>= λ next.
              get_elem? (map (λ (x : Entry C). x.1) r) 0 >>= λ next_url.
              some (record (from_entries (done ++ e ∷ r)) {
                agents = set (map (λ (x : Entry C). x.0) (done ++ e ∷ r)) (length done) next;
                agent_url = set (map (λ (x : Entry C). x.1) (done ++ e ∷ r)) (length done) next_url;
              }))
            ≡ (head? r >>= λ e'. some (from_entries (done ++ e' ∷ r)))
      overwritten [] = refl
      overwritten (z ∷ r) =
          rw
            (
              set-map_at (λ (x : Entry C). x.0) done (z ∷ r) e z,
              set-map_at (λ (x : Entry C). x.1) done (z ∷ r) e z,
              same_length z (z ∷ r),
            )
            refl

  -- The loop behind its first round, from what it does for the entry that this leaves.
  shift-rest :
      (url : Bytes) (i : ℕ) (done rest : List (Entry C)) (o : Option (Entry C))
      → ((e : Entry C)
          → shift_agents url (length rest) (i + 1) (from_entries ((done ++ e ∷ []) ++ rest))
            ≡ (overwrite url rest >>= λ kept. some (from_entries ((done ++ e ∷ []) ++ kept))))
      → (o
          >>= (λ e. some (from_entries (done ++ e ∷ rest)))
          >>= shift_agents url (length rest) (i + 1))
        ≡ (o >>= (λ e. overwrite url rest >>= λ kept. some (e ∷ kept)) >>= λ kept.
            some (from_entries (done ++ kept)))
  shift-rest url i done rest none goes = refl
  shift-rest url i done rest (some e) goes =
      ap (λ l. shift_agents url (length rest) (i + 1) (from_entries l))
        (sym (append_assoc done (e ∷ []) rest))
      ∙ goes e
      ∙ (λ j.
          overwrite url rest >>= λ kept. some (from_entries (append_assoc done (e ∷ []) kept j)))
      ∙ bind_assoc (overwrite url rest) (λ kept. some (e ∷ kept))
          (λ kept. some (from_entries (done ++ kept)))

  shift-from :
      (url : Bytes) (i : ℕ) (done rest : List (Entry C))
      → length done ≡ i
      → shift_agents url (length rest) i (from_entries (done ++ rest))
        ≡ (overwrite url rest >>= λ kept. some (from_entries (done ++ kept)))
  unfolding shift_agents
  shift-from url i done [] k = refl
  shift-from url i done (e ∷ rest) k =
      let goes_on = shift_agents url (length rest) (i + 1) in
      ap (λ j. shift_agent url j (from_entries (done ++ e ∷ rest)) >>= goes_on) (sym k)
      ∙ ap (λ o. o >>= goes_on) (shift_at url done rest e)
      ∙ shift-rest url i done rest (if string_equal e.1 url then head? rest else some e) (λ e'.
        shift-from url (i + 1) (done ++ e' ∷ []) rest
          (length-append done (e' ∷ []) ∙ ap (λ j. j + 1) k))

  -- The loop reads each entry before it writes it: the list that it leaves is `overwrite`. What is
  -- then kept is all but its last entry.
  pub remove_agent_lem :
      (url : Bytes) (entries kept : List (Entry C))
      → 0 < length entries
      → length entries < size_mod
      → overwrite url entries ≡ some kept
      → length kept ≡ length entries
      → remove_agent url (from_entries entries)
        ≡ some (from_entries (take (length entries - 1) kept))
  unfolding remove_agent
  remove_agent_lem url entries kept h k over long =
      rw
        (
          pred,
          shift-from url 0 [] entries refl,
          over,
          take-map (λ (e : Entry C). e.0) (length entries - 1) kept,
          take-map (λ (e : Entry C). e.1) (length entries - 1) kept,
          length-take_of_le (length entries - 1) kept (omega (arith, long)),
        )
        refl
    where
      pred : size_pred (length entries) ≡ length entries - 1
      pred = omega arith

  -- Where an entry is to be overwritten that has none behind it, the removal is undefined.
  pub remove_agent-none :
      (url : Bytes) (entries : List (Entry C))
      → overwrite url entries ≡ none
      → remove_agent url (from_entries entries) ≡ none
  unfolding remove_agent
  remove_agent-none url entries over = rw (shift-from url 0 [] entries refl, over) refl
