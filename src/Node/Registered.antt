-- ===== src/Node/Registered.antt =====
-- nestor/src/nestor.rs: the registry of namespaces.
use native.Mathlib.Nat.{mod-eq_of_lt}
use nestor.Common.{
  ℕ, ◌%◌, ◌<◌, ◌≡◌, inl, inr, refl, sym, ap, ◌∙◌, List, [], ◌∷◌, ◌++◌, none, some, Bool-cases,
  Option-cases, if◌then◌else◌, length, get_elem?, get_elem?-snoc, get_elem?-append,
  get_elem?-snoc_cases, ok, ok_or, unknown_namespace, arith, u32_mod,
}
use nestor.Namespace.{Namespace, NamespaceState, new_state}
use nestor.Node.{Parts, Registry, find_name, Engine, namespace_of, id_of, registered, register}
use nestor.Origin.Text.{same, same_iff}

-- A name has the id under which its state stands, and every state has a name.
pub record WellFormed {F : Type 0} (r : Registry F) : Type 0 where
  pub named :
      (name : List ℕ) (id : ℕ)
      → find_name r.by_name name ≡ some id
      → (s : NamespaceState F) × (get_elem? r.states id ≡ some s) × (s.name ≡ name) × (s.id ≡ id)
  pub listed :
      (id : ℕ) (s : NamespaceState F)
      → get_elem? r.states id ≡ some s
      → (s.id ≡ id) × (find_name r.by_name s.name ≡ some id)

some_injective : (i j : ℕ) → some i ≡ some j → i ≡ j
some_injective i j h = ground arith

module _ {p : Parts} {F : Type 0} where
  find_name-registered :
      (g : Engine p F) (n : Namespace F) (id : ℕ) (name : List ℕ)
      → find_name (registered g n id).registry.by_name name
        ≡ (if same n.name name then some id else find_name g.registry.by_name name)
  unfolding registered find_name
  find_name-registered g n id name = refl

  registered-WellFormed :
      (g : Engine p F) (n : Namespace F)
      → WellFormed g.registry
      → find_name g.registry.by_name n.name ≡ none
      → WellFormed (registered g n (length g.registry.states)).registry
  unfolding registered find_name new_state
  registered-WellFormed g n w free = record {
    named = λ name id h. elim (Bool-cases (same n.name name)) [
      | inl t ↦
          let q : some (length g.registry.states) ≡ some id = rw t at h in
          let e : length g.registry.states ≡ id = ground arith in
          (
            new_state (length g.registry.states) n,
            ap (λ i. get_elem? (g.registry.states ++ new_state (length g.registry.states) n ∷ []) i)
                  (sym e)
                ∙ get_elem?-snoc g.registry.states (new_state (length g.registry.states) n),
            (same_iff n.name name).0 t,
            e,
          )
      | inr f ↦
          let q : find_name g.registry.by_name name ≡ some id = rw f at h in
          let (s, e, nm, i) = w.named name id q in
          (s, (get_elem?-append g.registry.states _ id s e).0, nm, i)
    ];
    listed = λ id s h. elim (get_elem?-snoc_cases g.registry.states _ id s h) [
      | inl e ↦
          let (i, q) = w.listed id s e in
          elim (Bool-cases (same n.name s.name)) [
            | inl t ↦ let k : n.name ≡ s.name = (same_iff n.name s.name).0 t in absurd cc
            | inr f ↦ (i, rw f q)
          ]
      | inr (i, e) ↦
          let k : n.name ≡ s.name = sym (ap (λ s. s.name) e) in
          let t = (same_iff n.name s.name).1 k in
          (ap (λ s. s.id) e ∙ sym i, rw t (ap (λ i. some i) (sym i)))
    ];
  }

  -- A registration: the state of the namespace has its name and its id, and what was registered
  -- before stays.
  pub record Registers (g : Engine p F) (n : Namespace F) (g' : Engine p F) (id : ℕ) : Type 0 where
    pub formed : WellFormed g'.registry
    pub state :
        (s : NamespaceState F) × (namespace_of g' id ≡ ok s) × (s.name ≡ n.name) × (s.id ≡ id)
    pub name : id_of g' n.name ≡ some id
    pub kept :
        (other : List ℕ) (i : ℕ)
        → id_of g other ≡ some i
        → (id_of g' other ≡ some i) × (namespace_of g' i ≡ namespace_of g i)

  state_of :
      (g : Engine p F) (name : List ℕ) (id : ℕ)
      → WellFormed g.registry
      → id_of g name ≡ some id
      → (s : NamespaceState F) × (namespace_of g id ≡ ok s) × (s.name ≡ name) × (s.id ≡ id)
  unfolding id_of namespace_of
  state_of g name id w h =
      let (s, e, nm, i) = w.named name id h in (s, ap (λ o. ok_or o unknown_namespace) e, nm, i)

  known-Registers :
      (g : Engine p F) (n : Namespace F) (id : ℕ)
      → WellFormed g.registry
      → id_of g n.name ≡ some id
      → Registers g n g id
  known-Registers g n id w h = record {
    formed = w;
    state = state_of g n.name id w h;
    name = h;
    kept = λ other i e. (e, refl);
  }

  free-Registers :
      (g : Engine p F) (n : Namespace F)
      → WellFormed g.registry
      → find_name g.registry.by_name n.name ≡ none
      → Registers g n (registered g n (length g.registry.states)) (length g.registry.states)
  unfolding registered find_name id_of namespace_of new_state
  free-Registers g n w free =
      let formed = registered-WellFormed g n w free in
      let named : id_of (registered g n (length g.registry.states)) n.name
          ≡ some (length g.registry.states) =
        rw ((same_iff n.name n.name).1 refl) refl in
      record {
        formed = formed;
        state = state_of (registered g n (length g.registry.states)) n.name _ formed named;
        name = named;
        kept = λ other i e. elim (Bool-cases (same n.name other)) [
          | inl t ↦ let k : n.name ≡ other = (same_iff n.name other).0 t in absurd cc
          | inr f ↦
              let (s, q, nm, j) = w.named other i e in
              (
                rw f e,
                ap (λ o. ok_or o unknown_namespace)
                    ((get_elem?-append g.registry.states _ i s q).0 ∙ sym q),
              )
        ];
      }

  -- In a well-formed registry of fewer than 2^32 namespaces, registering a namespace gives an id for
  -- its name, under which a state with the name and the id stands; the ids and the states of all
  -- names from before stay, and the registry stays well-formed. A name that is there changes nothing.
  pub register-Registers :
      (g : Engine p F) (n : Namespace F)
      → WellFormed g.registry
      → length g.registry.states < u32_mod
      → Registers g n (register g n).0 (register g n).1
        × ((id : ℕ) → id_of g n.name ≡ some id → register g n ≡ (g, id))
  unfolding register id_of
  register-Registers g n w small = elim (Option-cases (find_name g.registry.by_name n.name)) [
    | inl e ↦
        let m : length g.registry.states % u32_mod ≡ length g.registry.states =
          mod-eq_of_lt {n = length g.registry.states} {m = u32_mod} small in
        rw (e, m, register) (free-Registers g n w e, λ id h. absurd cc)
    | inr (id, e) ↦
        rw (e, register)
          (known-Registers g n id w e, λ j h. ap (λ i. (g, i)) (some_injective id j h))
  ]
