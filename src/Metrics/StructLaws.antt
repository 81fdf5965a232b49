-- ===== src/Metrics/StructLaws.antt =====
-- An update by name, of src/metrics.c, changes the struct of that name only.
use statsite.Base.{
  ℕ, zero, suc, ◌<◌, ◌≡◌, ◌≢◌, ◌⊎◌, refl, subst, sym, ap, ◌∙◌, List, [], ◌∷◌, ◌++◌, Bool, false,
  Option, none, some, length, length-append, length-set, set, if◌then◌else◌, arith, Bool-cases,
  Option-cases, inl, inr,
}
use statsite.Hashmap.{Hashmap}
use statsite.Hashmap.Pairs.{Decides, found}
use statsite.Hashmap.Methods.{IsMap, reads, hashmap_get-reads}
use statsite.Hashmap.Put.{hashmap_put_stores}
use statsite.Hashmap.Init.{hashmap_init-IsNew}
use statsite.Metrics.Structs.{Named, at_pointer, no_names, make, find_or_make, change, update_named}

module _ {X : Type 0} where
  pub at_pointer-inside :
      (xs : List X) (p : ℕ) → p < length xs → (x : X) × (at_pointer xs p ≡ some x)
  at_pointer-inside [] p h = absurd (omega arith)
  at_pointer-inside (x ∷ xs) zero h = (x, refl)
  at_pointer-inside (x ∷ xs) (suc p) h = at_pointer-inside xs p (omega arith)

  at_pointer-append :
      (xs ys : List X) (p : ℕ) → p < length xs → at_pointer (xs ++ ys) p ≡ at_pointer xs p
  at_pointer-append [] ys p h = absurd (omega arith)
  at_pointer-append (x ∷ xs) ys zero h = refl
  at_pointer-append (x ∷ xs) ys (suc p) h = at_pointer-append xs ys p (omega arith)

  at_pointer-last : (xs : List X) (x : X) → at_pointer (xs ++ x ∷ []) (length xs) ≡ some x
  at_pointer-last [] x = refl
  at_pointer-last (y ∷ xs) x = at_pointer-last xs x

  at_pointer-set_self :
      (xs : List X) (p : ℕ) (y : X) → p < length xs → at_pointer (set xs p y) p ≡ some y
  at_pointer-set_self [] p y h = absurd (omega arith)
  at_pointer-set_self (x ∷ xs) zero y h = refl
  at_pointer-set_self (x ∷ xs) (suc p) y h = at_pointer-set_self xs p y (omega arith)

  at_pointer-set_ne :
      (xs : List X) (p q : ℕ) (y : X) → p ≢ q → at_pointer (set xs p y) q ≡ at_pointer xs q
  at_pointer-set_ne [] p q y h = refl
  at_pointer-set_ne (x ∷ xs) zero zero y h = absurd (h refl)
  at_pointer-set_ne (x ∷ xs) zero (suc q) y h = refl
  at_pointer-set_ne (x ∷ xs) (suc p) zero y h = refl
  at_pointer-set_ne (x ∷ xs) (suc p) (suc q) y h = at_pointer-set_ne xs p q y (λ e. h (ap suc e))

module _ {X : Type 0} (hash : List ℕ → ℕ) (eq : List ℕ → List ℕ → Bool) (d : Decides eq) where
  abbrev pub pointer : Named X → List ℕ → Option ℕ
  pointer s name = reads hash eq d s.names name

  abbrev pub behind : List X → Option ℕ → Option X
  behind xs none = none
  behind xs (some p) = at_pointer xs p

  -- The struct of a name.
  abbrev pub value_of : Named X → List ℕ → Option X
  value_of s name = behind s.structs (pointer s name)

  -- The table is in order, its pointers are allocated, and two names never share a struct.
  pub record IsNamed (s : Named X) : Type 0 where
    pub ok : IsMap hash eq d s.names
    pub allocated : (name : List ℕ) (p : ℕ) → pointer s name ≡ some p → p < length s.structs
    pub apart :
        (name other : List ℕ) (p : ℕ)
        → pointer s name ≡ some p
        → pointer s other ≡ some p
        → name ≡ other

  pub no_names-IsNamed : IsNamed no_names × ((name : List ℕ) → value_of no_names name ≡ none)
  unfolding no_names
  no_names-IsNamed =
      let new = hashmap_init-IsNew ℕ hash eq d 0 (λ e. absurd (omega arith)) (omega arith) in
      (
        record {
          ok = new.ok;
          allocated = λ name p e. absurd (cc (new.no_key name));
          apart = λ name other p e f. absurd (cc (new.no_key name));
        },
        λ name. rw (new.no_key name) refl,
      )

  -- A struct that is found or made: where it is, and what it holds.
  pub record Finds (s : Named X) (name : List ℕ) (x : X) (r : Option (ℕ × Named X)) : Type 0 where
    pub p : ℕ
    pub after : Named X
    pub runs : r ≡ some (p, after)
    pub named : IsNamed after
    pub points : pointer after name ≡ some p
    pub holds : at_pointer after.structs p ≡ some x
    pub others : (j : List ℕ) → eq name j ≡ false → value_of after j ≡ value_of s j

  -- The struct of the name, or a new one.
  abbrev pub or_new : Option X → Option X → Option X
  or_new none init = init
  or_new (some x) init = some x

  find_old :
      (s : Named X) (v : IsNamed s) (name : List ℕ) (init : Option X) (p : ℕ)
      → pointer s name ≡ some p
      → (x : X) × (value_of s name ≡ some x) × Finds s name x (find_or_make hash eq init s name)
  unfolding find_or_make
  find_old s v name init p e =
      let (x, f) = at_pointer-inside s.structs p (v.allocated name p e) in
      (
        x,
        rw e f,
        record {
          p = p;
          after = s;
          runs = rw (hashmap_get-reads hash eq d s.names v.ok name, e, find_or_make) refl;
          named = v;
          points = e;
          holds = f;
          others = λ j ne. refl;
        },
      )

  module _ (s : Named X) (v : IsNamed s) (name : List ℕ) (x : X) where
    -- What the table says after the put of the new pointer.
    abbrev PutsNew : Hashmap (List ℕ) ℕ → Type 0
    PutsNew names =
        (j : List ℕ)
        → reads hash eq d names j ≡ (if eq name j then some (length s.structs) else pointer s j)

    with_new : Hashmap (List ℕ) ℕ → Named X
    with_new names = record { names = names; structs = s.structs ++ x ∷ [] }

    pointer_new :
        (names : Hashmap (List ℕ) ℕ) (j : List ℕ) (q : ℕ)
        → PutsNew names
        → reads hash eq d names j ≡ some q
        → ((name ≡ j) × (q ≡ length s.structs)) ⊎ (pointer s j ≡ some q)
    pointer_new names j q puts e = elim (Bool-cases (eq name j)) [
      | inl same ↦ inl ((d name j).0 same, cc (rw same at (puts j)))
      | inr other ↦ inr (cc (rw other at (puts j)))
    ]

    with_new-IsNamed :
        (names : Hashmap (List ℕ) ℕ)
        → IsMap hash eq d names
        → PutsNew names
        → IsNamed (with_new names)
    unfolding with_new
    with_new-IsNamed names ok puts = record {
      ok = ok;
      allocated = λ j q e. elim (pointer_new names j q puts e) [
        | inl (same, last) ↦ omega (arith, length-append s.structs (x ∷ []))
        | inr old ↦ omega (arith, length-append s.structs (x ∷ []), v.allocated j q old)
      ];
      apart = λ j k q e f. elim (pointer_new names j q puts e) [
        | inl (same, last) ↦ elim (pointer_new names k q puts f) [
          | inl (same', _) ↦ sym same ∙ same'
          | inr old ↦ absurd (omega (arith, v.allocated k q old))
        ]
        | inr old ↦ elim (pointer_new names k q puts f) [
          | inl (same', last) ↦ absurd (omega (arith, v.allocated j q old))
          | inr old' ↦ v.apart j k q old old'
        ]
      ];
    }

    new_others :
        (names : Hashmap (List ℕ) ℕ) (j : List ℕ)
        → PutsNew names
        → eq name j ≡ false
        → value_of (with_new names) j ≡ value_of s j
    unfolding with_new
    new_others names j puts ne =
        rw (puts j, ne)
          (elim (Option-cases (pointer s j)) [
            | inl e ↦ rw e refl
            | inr (q, e) ↦ rw e (at_pointer-append s.structs (x ∷ []) q (v.allocated j q e))
          ])

    make_new : pointer s name ≡ none → Finds s name x (find_or_make hash eq (some x) s name)
    unfolding find_or_make make with_new
    make_new e =
        let put = hashmap_put_stores hash eq d 0 s.names name (length s.structs) v.ok in
        record {
          p = length s.structs;
          after = with_new put.after;
          runs =
              rw (hashmap_get-reads hash eq d s.names v.ok name, e, find_or_make, put.runs, make)
                refl;
          named = with_new-IsNamed put.after put.ok put.reads_after;
          points = rw (put.reads_after name, (d name name).1 refl) refl;
          holds = at_pointer-last s.structs x;
          others = λ j ne. new_others put.after j put.reads_after ne;
        }

  -- The change of a struct that was found.
  module _ (s : Named X) (v : IsNamed s) (name : List ℕ) (p : ℕ) (points : pointer s name ≡ some p)
      (y : X) where
    changed : Named X
    changed = record s { structs = set s.structs p y }

    changed-IsNamed : IsNamed changed
    unfolding changed
    changed-IsNamed = record {
      ok = v.ok;
      allocated = λ j q e. rw (length-set s.structs p y) (v.allocated j q e);
      apart = v.apart;
    }

    changed_self : value_of changed name ≡ some y
    unfolding changed
    changed_self = rw points (at_pointer-set_self s.structs p y (v.allocated name p points))

    changed_other : (j : List ℕ) → eq name j ≡ false → value_of changed j ≡ value_of s j
    unfolding changed
    changed_other j ne = elim (Option-cases (pointer s j)) [
      | inl e ↦ rw e refl
      | inr (q, e) ↦
          let differ : p ≢ q =
            λ same. absurd (cc (ne, (d name j).1 (v.apart name j q (rw same at points) e))) in
          rw e (at_pointer-set_ne s.structs p q y differ)
    ]

  -- An update: the named struct is changed, and the others are what they were.
  pub record Updates (s : Named X) (name : List ℕ) (y : X) (r : Option (Named X)) : Type 0 where
    pub after : Named X
    pub runs : r ≡ some after
    pub named : IsNamed after
    pub values : (j : List ℕ) → value_of after j ≡ (if eq name j then some y else value_of s j)

  change_found :
      (s : Named X) (name : List ℕ) (x y : X) (f : X → Option X) (init : Option X)
      → Finds s name x (find_or_make hash eq init s name)
      → f x ≡ some y
      → Updates s name y (update_named hash eq init f s name)
  unfolding update_named change changed
  change_found s name x y f init found runs =
      let after = changed found.after found.named name found.p found.points y in
      record {
        after = after;
        runs = rw (found.runs, update_named, found.holds, runs, change) refl;
        named = changed-IsNamed found.after found.named name found.p found.points y;
        values = λ j. elim (Bool-cases (eq name j)) [
          | inl same ↦
              let home : name ≡ j = (d name j).0 same in
              rw (same, ← home) (changed_self found.after found.named name found.p found.points y)
          | inr other ↦ rw other (
              changed_other found.after found.named name found.p found.points y j other
              ∙ found.others j other)
        ];
      }

  -- An update by name of structs in order, whose table is in order and whose names point to
  -- allocated structs, no two to the same one, needs no more than one resize of the table and
  -- touches no memory that is not there. It leaves structs in order, in which the name has what the
  -- change makes of its old struct, or of a new one, and every other name what it had.
  pub update_named_lem :
      (s : Named X) (name : List ℕ) (init : Option X) (f : X → Option X) (x y : X)
      → IsNamed s
      → or_new (value_of s name) init ≡ some x
      → f x ≡ some y
      → Updates s name y (update_named hash eq init f s name)
  update_named_lem s name init f x y v start runs = elim (Option-cases (pointer s name)) [
    | inr (p, e) ↦
        let (x', holds, found) = find_old s v name init p e in
        let same : x' ≡ x = cc (rw holds at start) in
        change_found s name x y f init
          (subst (λ z. Finds s name z (find_or_make hash eq init s name)) same found) runs
    | inl e ↦
        let fresh : init ≡ some x = rw e at start in
        subst (λ i. Updates s name y (update_named hash eq i f s name)) (sym fresh)
          (change_found s name x y f (some x) (make_new s v name x e) runs)
  ]
