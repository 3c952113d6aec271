-- ===== src/Topology/Acyclic/Invariant.antt =====
-- What the search keeps (core/topology.py).
use eyot_ai.Prelude.{
  String, ◌≡◌, ◌⊎◌, inl, inr, refl, true, false, none, some, List, [], ◌∷◌, ◌++◌, ◌==◌, ◌||◌,
  eq_iff, eq_refl, arith, contains, Bool-cases, All, subst, sym,
}
use eyot_ai.Topology.Passages.{Passage}
use eyot_ai.Topology.Acyclic.{links, Search, visit, scan}
use eyot_ai.Topology.Acyclic.Reach.{Connected, here, step, links-Joined, Joined-links}

pub contains-append :
    (xs ys : List String) (a : String) → contains (xs ++ ys) a ≡ (contains xs a || contains ys a)
contains-append [] ys a = refl
contains-append (x ∷ xs) ys a = ground (arith, contains-append xs ys a)

module _ (ws : String) (rows : List Passage) (from to : String) where
  -- Between two rounds, and during a round with `current` taken from the queue: what is visited is
  -- connected and is not `from`; what is queued is visited; and of what is visited and not queued,
  -- but for `current`, all neighbours are visited.
  pub record Keeps (current : String) (s : Search) : Type 0 where
    pub rooted : contains s.visited to ≡ true
    pub sound : (x : String) → contains s.visited x ≡ true → Connected ws rows to x
    pub unmet : contains s.visited from ≡ false
    pub queued : (x : String) → contains s.queue x ≡ true → contains s.visited x ≡ true
    pub closed :
        (x : String)
        → contains s.visited x ≡ true
        → (contains s.queue x ≡ true)
          ⊎ (x ≡ current)
          ⊎ ((y : String) → contains (links ws rows x) y ≡ true → contains s.visited y ≡ true)

  visit-grows :
      (n x : String) (s : Search)
      → contains s.visited x ≡ true
      → contains (visit n s).visited x ≡ true
  unfolding visit
  visit-grows n x s h = ground arith

  visit-visited : (n : String) (s : Search) → contains (visit n s).visited n ≡ true
  unfolding visit
  visit-visited n s = ground (arith, eq_refl n)

  -- what a visit adds
  visited-cases :
      (n x : String) (s : Search)
      → contains (visit n s).visited x ≡ true
      → (contains s.visited x ≡ true) ⊎ ((n ≡ x) × (contains (visit n s).queue x ≡ true))
  unfolding visit
  visited-cases n x s h = ground (arith, contains-append s.queue (n ∷ []) x, eq_iff n x)

  queue-grows :
      (n x : String) (s : Search) → contains s.queue x ≡ true → contains (visit n s).queue x ≡ true
  unfolding visit
  queue-grows n x s h = ground (arith, contains-append s.queue (n ∷ []) x)

  queue-cases :
      (n x : String) (s : Search)
      → contains (visit n s).queue x ≡ true
      → (contains s.queue x ≡ true) ⊎ (n ≡ x)
  unfolding visit
  queue-cases n x s h = ground (arith, contains-append s.queue (n ∷ []) x, eq_iff n x)

  visit-Keeps :
      (current n : String) (s : Search)
      → Connected ws rows to n
      → (n == from) ≡ false
      → Keeps current s
      → Keeps current (visit n s)
  visit-Keeps current n s c ne k = record {
    rooted = visit-grows n to s k.rooted;
    sound = λ x h. elim (visited-cases n x s h) [
      | inl old ↦ k.sound x old
      | inr new ↦ subst (Connected ws rows to) new.0 c
    ];
    unmet = elim (Bool-cases (contains (visit n s).visited from)) [
      | inl met ↦ elim (visited-cases n from s met) [
        | inl old ↦ cc (k.unmet)
        | inr new ↦ cc (ne, (eq_iff n from).1 new.0)
      ]
      | inr unmet ↦ unmet
    ];
    queued = λ x h. elim (queue-cases n x s h) [
      | inl old ↦ visit-grows n x s (k.queued x old)
      | inr new ↦ rw (← new) (visit-visited n s)
    ];
    closed = λ x h. elim (visited-cases n x s h) [
      | inl old ↦ elim (k.closed x old) [
        | inl q ↦ inl (queue-grows n x s q)
        | inr (inl e) ↦ inr (inl e)
        | inr (inr all) ↦ inr (inr (λ y l. visit-grows n y s (all y l)))
      ]
      | inr new ↦ inl new.1
    ];
  }

  -- a round that meets `from` does so among the neighbours
  scan-none : (ns : List String) (s : Search) → scan from ns s ≡ none → contains ns from ≡ true
  unfolding scan
  scan-none [] s e = cc
  scan-none (n ∷ ns) s e = ground (arith, scan-none ns (visit n s))

  scan-nil : (s s' : Search) → scan from [] s ≡ some s' → s ≡ s'
  unfolding scan
  scan-nil s s' e = cc

  scan-cons :
      (n : String) (ns : List String) (s s' : Search)
      → scan from (n ∷ ns) s ≡ some s'
      → ((n == from) ≡ false) × (scan from ns (visit n s) ≡ some s')
  unfolding scan
  scan-cons n ns s s' e = ground arith

  scan-grows :
      (x : String) (ns : List String) (s s' : Search)
      → scan from ns s ≡ some s'
      → contains s.visited x ≡ true
      → contains s'.visited x ≡ true
  scan-grows x [] s s' e h = subst (λ t. contains t.visited x ≡ true) (scan-nil s s' e) h
  scan-grows x (n ∷ ns) s s' e h =
      scan-grows x ns (visit n s) s' (scan-cons n ns s s' e).1 (visit-grows n x s h)

  scan-Keeps :
      (current : String) (ns : List String) (s s' : Search)
      → scan from ns s ≡ some s'
      → All (Connected ws rows to) ns
      → Keeps current s
      → Keeps current s' × All (λ n. contains s'.visited n ≡ true) ns
  scan-Keeps current [] s s' e c k = (subst (Keeps current) (scan-nil s s' e) k, tt)
  scan-Keeps current (n ∷ ns) s s' e c k =
      let (ne, e') = scan-cons n ns s s' e in
      let (k', all) =
        scan-Keeps current ns (visit n s) s' e' c.1 (visit-Keeps current n s c.0 ne k) in
      (k', (scan-grows n ns (visit n s) s' e' (visit-visited n s), all))

  -- Between two rounds.
  pub record Settled (s : Search) : Type 0 where
    pub rooted : contains s.visited to ≡ true
    pub sound : (x : String) → contains s.visited x ≡ true → Connected ws rows to x
    pub unmet : contains s.visited from ≡ false
    pub queued : (x : String) → contains s.queue x ≡ true → contains s.visited x ≡ true
    pub closed :
        (x : String)
        → contains s.visited x ≡ true
        → (contains s.queue x ≡ true)
          ⊎ ((y : String) → contains (links ws rows x) y ≡ true → contains s.visited y ≡ true)

  -- taking the head of the queue
  Keeps-of_Settled :
      (current : String) (queue : List String) (s : Search)
      → s.queue ≡ current ∷ queue
      → Settled s
      → Keeps current (record s { queue = queue })
  Keeps-of_Settled current queue s e k = record {
    rooted = k.rooted;
    sound = k.sound;
    unmet = k.unmet;
    queued = λ x h. k.queued x (ground arith);
    closed = λ x h. elim (k.closed x h) [
      | inl q ↦ elim (Bool-cases (current == x)) [
        | inl same ↦ inr (inl (sym ((eq_iff current x).0 same)))
        | inr differ ↦ inl (ground arith)
      ]
      | inr all ↦ inr (inr all)
    ];
  }

  contains_of_All :
      (P : String → Type 0) (ns : List String) (x : String) → All P ns → contains ns x ≡ true → P x
  contains_of_All P [] x all h = cc
  contains_of_All P (n ∷ ns) x all h = elim (Bool-cases (n == x)) [
    | inl same ↦ subst P ((eq_iff n x).0 same) all.0
    | inr differ ↦ contains_of_All P ns x all.1 (ground arith)
  ]

  All-of_contains :
      (P : String → Type 0) (ns : List String)
      → ((x : String) → contains ns x ≡ true → P x)
      → All P ns
  All-of_contains P [] f = tt
  All-of_contains P (n ∷ ns) f =
      (f n (ground (arith, eq_refl n)), All-of_contains P ns (λ x h. f x (ground arith)))

  neighbours-Connected :
      (x : String) → Connected ws rows to x → All (Connected ws rows to) (links ws rows x)
  neighbours-Connected x c =
      All-of_contains (Connected ws rows to) (links ws rows x)
        (λ y h. step c (links-Joined ws rows x y h))

  -- A round that meets no neighbour that is `from` leaves a settled search.
  pub round-Settled :
      (current : String) (queue : List String) (s s' : Search)
      → s.queue ≡ current ∷ queue
      → scan from (links ws rows current) (record s { queue = queue }) ≡ some s'
      → Settled s
      → Settled s'
  round-Settled current queue s s' q e k =
      let connected = k.sound current (k.queued current (ground (arith, eq_refl current))) in
      let (k', all) =
        scan-Keeps current (links ws rows current) (record s { queue = queue }) s' e
          (neighbours-Connected current connected) (Keeps-of_Settled current queue s q k) in
      record {
        rooted = k'.rooted;
        sound = k'.sound;
        unmet = k'.unmet;
        queued = k'.queued;
        closed = λ x h. elim (k'.closed x h) [
          | inl in_queue ↦ inl in_queue
          | inr (inl same) ↦ inr (λ y l.
              contains_of_All (λ n. contains s'.visited n ≡ true) (links ws rows current) y all
                (subst (λ z. contains (links ws rows z) y ≡ true) same l))
          | inr (inr closed) ↦ inr closed
        ];
      }

  -- A round that meets `from` shows it connected.
  pub round-met :
      (current : String) (queue : List String) (s : Search)
      → s.queue ≡ current ∷ queue
      → scan from (links ws rows current) (record s { queue = queue }) ≡ none
      → Settled s
      → Connected ws rows to from
  round-met current queue s q e k =
      step (k.sound current (k.queued current (ground (arith, eq_refl current)))) (
        links-Joined ws rows current from
          (scan-none (links ws rows current) (record s { queue = queue }) e))

  -- With nothing queued, all that is connected is visited.
  pub empty_queue :
      (s : Search)
      → s.queue ≡ []
      → Settled s
      → (x : String) → Connected ws rows to x
      → contains s.visited x ≡ true
  empty_queue s q k x here = k.rooted
  empty_queue s q k x (step {y = y} c j) = elim (k.closed y (empty_queue s q k y c)) [
    | inl in_queue ↦ ground arith
    | inr closed ↦ closed x (Joined-links ws rows y x j)
  ]
