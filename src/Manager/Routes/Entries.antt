-- ===== src/Manager/Routes/Entries.antt =====
-- The entries of the routing maps after an update of routes.
use ebpfmanager.Common.{
  map, append-nil, some_eq, refl, sym, ◌++◌, Bool, false, String, str_eq, ℕ, ◌≡◌, ◌≢◌, ◌⊎◌, inl,
  inr, ◌&&◌, ◌==◌, List, [], ◌∷◌, Option, none, some, if◌then◌else◌, arith, Bool-cases,
  Option-cases, subst, ◌∙◌, ap,
}
use ebpfmanager.Errors.{Error, Fault, unknown_map}
use ebpfmanager.Map.{ManagedMap}
use ebpfmanager.Manager.{lookup_spec}
use ebpfmanager.Manager.Routes.{
  ready, find_array, chosen, Collection, get_map, map_target, resolve, Loaded, MapRoute, Target,
  refused, nil_pointer, target, returned, insert, update_routes, map_targets, update_map_routes,
}

abbrev by_name : List ManagedMap → List (String × Option ℕ)
by_name ms = map (λ x. (x.name, x.array)) ms

-- The maps that a name can mean, in the order of the lookup: those of the collection, then those of the manager, and
-- then those of its rings.
abbrev pub known_maps : Loaded → List (String × Option ℕ)
known_maps l = elim (ready l) [
  | none ↦ []
  | some c ↦ map (λ x. (x.0, some x.1)) c.maps ++ (by_name l.maps ++ by_name l.perf_maps)
]

-- The map of the first entry with a name.
abbrev pub first_named : String → List (String × Option ℕ) → Option ℕ
first_named name [] = none
first_named name ((n, a) ∷ rest) = if str_eq n name then a else first_named name rest

-- The map that a route puts into, and the map that it puts there.
abbrev pub destination : Loaded → MapRoute → Option ℕ
destination l r = first_named r.routing_map_name (known_maps l)

abbrev pub content : Loaded → MapRoute → Option ℕ
content l r = elim r.map [ some n ↦ some n | none ↦ first_named r.routed_name (known_maps l) ]

abbrev is_at : Option ℕ → ℕ → Bool
is_at none m = false
is_at (some a) m = a == m

-- The entry of a map at a key after the routes, the last one for it winning.
abbrev pub after_routes : Loaded → List MapRoute → ℕ → ℕ → Option ℕ → Option ℕ
after_routes l [] m j o = o
after_routes l (r ∷ rs) m j o =
    after_routes l rs m j (if is_at (destination l r) m && r.key == j then content l r else o)

not_in_collection :
    (name : String) (ys : List (String × Option ℕ)) (ms : List (String × ℕ))
    → lookup_spec name ms ≡ none
    → first_named name (map (λ x. (x.0, some x.1)) ms ++ ys) ≡ first_named name ys
unfolding lookup_spec
not_in_collection name ys [] h = refl
not_in_collection name ys ((n, a) ∷ ms) h = ground (arith, not_in_collection name ys ms, h)

in_collection :
    (name : String) (ys : List (String × Option ℕ)) (ms : List (String × ℕ)) (a : ℕ)
    → lookup_spec name ms ≡ some a
    → first_named name (map (λ x. (x.0, some x.1)) ms ++ ys) ≡ some a
unfolding lookup_spec
in_collection name ys [] a h = absurd (cc)
in_collection name ys ((n, b) ∷ ms) a h = ground (arith, in_collection name ys ms a, h)

in_maps :
    (name : String) (ys : List (String × Option ℕ)) (ms : List ManagedMap) (a : Option ℕ)
    → find_array name ms ≡ some a
    → first_named name (by_name ms ++ ys) ≡ a
unfolding find_array
in_maps name ys [] a h = absurd (cc)
in_maps name ys (m ∷ ms) a h = ground (arith, in_maps name ys ms a, h)

not_in_maps :
    (name : String) (ys : List (String × Option ℕ)) (ms : List ManagedMap)
    → find_array name ms ≡ none
    → first_named name (by_name ms ++ ys) ≡ first_named name ys
unfolding find_array
not_in_maps name ys [] h = refl
not_in_maps name ys (m ∷ ms) h = ground (arith, not_in_maps name ys ms, h)

known_of :
    (l : Loaded) (c : Collection)
    → ready l ≡ some c
    → known_maps l ≡ map (λ x. (x.0, some x.1)) c.maps ++ (by_name l.maps ++ by_name l.perf_maps)
known_of l c e = rw (known_maps, e) refl

-- What `GetMap` finds is what the name means.
get_map-first_named :
    (l : Loaded) (name : String) (a : ℕ)
    → get_map l name ≡ (none, some (some a))
    → first_named name (known_maps l) ≡ some a
unfolding get_map
get_map-first_named l name a h = elim (Option-cases (ready l)) [
  | inl e ↦ let z = ap (λ x. x.0) (rw (get_map, e) at h) in absurd (cc)
  | inr (c, e) ↦
      let rings : List (String × Option ℕ) = by_name l.perf_maps in
      let maps : List (String × Option ℕ) = by_name l.maps in
      ap (first_named name) (known_of l c e) ∙ elim (Option-cases (lookup_spec name c.maps)) [
        | inr (b, f) ↦
            in_collection name (maps ++ rings) c.maps b f
            ∙ some_eq (ap (λ x. x.1) (rw (get_map, e, f) at h))
        | inl f ↦
            not_in_collection name (maps ++ rings) c.maps f
            ∙ elim (Option-cases (find_array name l.maps)) [
              | inr (b, g) ↦
                  in_maps name rings l.maps b g
                  ∙ some_eq (ap (λ x. x.1) (rw (get_map, e, f, g) at h))
              | inl g ↦
                  not_in_maps name rings l.maps g
                  ∙ ap (first_named name) (sym (append-nil (by_name l.perf_maps)))
                  ∙ in_maps name [] l.perf_maps (some a)
                      (ap (λ x. x.1) (rw (get_map, e, f, g) at h))
            ]
      ]
]

resolved :
    (missing : Error) (x y : Fault × Option (Option ℕ)) (a b : ℕ)
    → resolve missing x y ≡ target a b
    → (x ≡ (none, some (some a))) × (y ≡ (none, some (some b)))
unfolding resolve
resolved missing (some e, o) y a b h = absurd (cc)
resolved missing (none, none) y a b h = absurd (cc)
resolved missing (none, some c) (some e, o) a b h = absurd (cc)
resolved missing (none, some c) (none, none) a b h = absurd (cc)
resolved missing (none, some none) (none, some d) a b h = absurd (cc)
resolved missing (none, some (some c)) (none, some none) a b h = absurd (cc)
resolved missing (none, some (some c)) (none, some (some d)) a b h =
    (ground (arith, h), ground (arith, h))

chosen-content :
    (l : Loaded) (o : Option ℕ) (name : String) (b : ℕ)
    → chosen o (get_map l name) ≡ (none, some (some b))
    → elim o [ some n ↦ some n | none ↦ first_named name (known_maps l) ] ≡ some b
chosen-content l none name b h = get_map-first_named l name b h
chosen-content l (some n) name b h = some_eq (ap (λ x. x.1) h)

-- A route that comes to a target names it.
target_of :
    (l : Loaded) (r : MapRoute) (a b : ℕ)
    → map_target l r ≡ target a b
    → (destination l r ≡ some a) × (content l r ≡ some b)
unfolding map_target
target_of l r a b h =
    let (x, y) =
      resolved unknown_map (get_map l r.routing_map_name) (chosen r.map (get_map l r.routed_name)) a
        b h in
    (get_map-first_named l r.routing_map_name a x, chosen-content l r.map r.routed_name b y)

-- What the kernel says of updates: one that succeeds sets its entry and no other.
pub record PutLaws (W : Type 0) (put : ℕ → ℕ → ℕ → W → Fault × W) (entry : W → ℕ → ℕ → Option ℕ)
    : Type 0 where
  pub put_sets : (a k b : ℕ) (w : W) → (put a k b w).0 ≡ none → entry (put a k b w).1 a k ≡ some b
  pub put_keeps :
      (a k b m j : ℕ) (w : W) → (m ≢ a) ⊎ (j ≢ k) → entry (put a k b w).1 m j ≡ entry w m j

module _ (W : Type 0) (put : ℕ → ℕ → ℕ → W → Fault × W) (entry : W → ℕ → ℕ → Option ℕ)
    (laws : PutLaws W put entry) where
  put-entry :
      (a k b m j : ℕ) (w : W)
      → (put a k b w).0 ≡ none
      → entry (put a k b w).1 m j ≡ (if a == m && k == j then some b else entry w m j)
  put-entry a k b m j w h = elim (Bool-cases (a == m && k == j)) [
    | inl e ↦
        let p : a ≡ m = ground (arith, e) in
        let q : k ≡ j = ground (arith, e) in
        rw e (
          subst (λ x. entry (put a k b w).1 x j ≡ some b) p
            (subst (λ y. entry (put a k b w).1 a y ≡ some b) q (laws.put_sets a k b w h)))
    | inr e ↦ rw e (
        laws.put_keeps a k b m j w (elim (Bool-cases (a == m)) [
          | inl f ↦ inr (λ g. ground (arith, e, f, g))
          | inr f ↦ inl (λ g. ground (arith, f, g))
        ]))
  ]

  is_target-put :
      (l : Loaded) (r : MapRoute) (a b m j : ℕ) (w : W)
      → map_target l r ≡ target a b
      → (put a r.key b w).0 ≡ none
      → entry (put a r.key b w).1 m j
        ≡ (if is_at (destination l r) m && r.key == j then content l r else entry w m j)
  is_target-put l r a b m j w t h =
      let (d, c) = target_of l r a b t in put-entry a r.key b m j w h ∙ rw (d, c) refl

  -- If `UpdateMapRoutes` returns with no error, each entry of each map is what the last route to it asks to put
  -- there, and is what it was where no route goes. A route goes to the map that is first known by its routing
  -- map's name, and asks for its own map, or else for the one first known by its routed name.
  pub update_map_routes-entry :
      (l : Loaded) (rs : List MapRoute) (w w' : W) (m j : ℕ)
      → update_map_routes W put l rs w ≡ returned none w'
      → entry w' m j ≡ after_routes l rs m j (entry w m j)
  unfolding update_map_routes update_routes map_targets insert
  update_map_routes-entry l [] w w' m j h = ground (arith, h)
  update_map_routes-entry l (r ∷ rs) w w' m j h =
      by_target (map_target l r) refl (λ v. update_map_routes-entry l rs v w' m j)
    where
      by_target :
          (t : Target)
          → map_target l r ≡ t
          → ((v : W)
              → update_map_routes W put l rs v ≡ returned none w'
              → entry w' m j ≡ after_routes l rs m j (entry v m j))
          → entry w' m j ≡ after_routes l (r ∷ rs) m j (entry w m j)
      by_target (refused e) t k = let z = rw (update_map_routes, t) at h in absurd (cc)
      by_target nil_pointer t k = let z = rw (update_map_routes, t) at h in absurd (cc)
      by_target (target a b) t k = elim (Option-cases (put a r.key b w).0) [
        | inl e ↦
            k (put a r.key b w).1 (rw (update_map_routes, t, e, update_routes) at h)
            ∙ ap (after_routes l rs m j) (is_target-put l r a b m j w t e)
        | inr (err, e) ↦ let z = rw (update_map_routes, t, e, update_routes) at h in absurd (cc)
      ]
