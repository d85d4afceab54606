-- ===== src/Kernel/Adopt.antt =====
-- The loop of `exit` of project01/xv6-public/proc.c that hands the children of a process to init.
use mathlib.Core.Option
use mathlib.Core.Option.{some_inj, none-ne-some}
use ele.Common.{
  ℕ, zero, suc, ◌+◌, ◌≡◌, refl, sym, ap, subst, ◌∙◌, Bool, true, false, ◌&&◌, ◌||◌, Option, none,
  some, List, [], ◌∷◌, arith, ltb, ◌≢◌, ℕ_discrete, if◌then◌else◌, get_elem?, get_elem?-modify,
  get_elem?-map, modify, Bool-cases, inl, inr,
}
use ele.Proc.{Proc, runnable, is_zombie, Chan, chan_of, sleeps_on, wakeup1}
use ele.Kernel.Exit.{is_child, is_dead_child, adopt, adopt_at}

-- What the loop does to a child of `cur`.
abbrev pub given : ℕ → Option ℕ → Proc → Proc
given cur init p = if is_child cur p then record p { parent = init } else p

-- A wake-up on `c`, if there is one.
abbrev pub woken : Bool → Chan → Proc → Proc
woken b c p = if b && sleeps_on c p then record p { state = runnable } else p

-- Whether some process is a dead child of `cur`.
unfoldable pub has_dead : ℕ → List Proc → Bool
has_dead cur [] = false
has_dead cur (p ∷ ps) = is_dead_child cur p || has_dead cur ps

module _ (cur : ℕ) (init : Option ℕ) where
  abbrev handed : Proc → Proc
  handed p = record p { parent = init }

  -- Entry `j` when the loop stands at entry `i`, and has woken init or not.
  abbrev pub entry : ℕ → Bool → ℕ → Proc → Proc
  entry i b j p = woken b (chan_of init) (if ltb j i then given cur init p else p)

  abbrev pub Stands : List Proc → ℕ → Bool → List Proc → Type 0
  Stands ps i b qs = (j : ℕ) → get_elem? qs j ≡ Option.map (entry i b j) (get_elem? ps j)

  abbrev pub dead_at : Option Proc → Bool
  dead_at none = false
  dead_at (some p) = is_dead_child cur p

  -- Whether there is a dead child among the `n` entries from `i` on.
  unfoldable pub dead_from : List Proc → ℕ → ℕ → Bool
  dead_from ps zero i = false
  dead_from ps (suc n) i = dead_at (get_elem? ps i) || dead_from ps n (suc i)

  Stands-at :
      (ps : List Proc) (i k : ℕ) (b : Bool) (qs : List Proc)
      → i ≡ k
      → Stands ps i b qs
      → Stands ps k b qs
  Stands-at ps i k b qs e = subst (λ t. Stands ps t b qs) e

  or_assoc : (a b c : Bool) → ((a || b) || c) ≡ (a || (b || c))
  or_assoc true b c = refl
  or_assoc false b c = refl

  Stands-as :
      (ps : List Proc) (i : ℕ) (b b' : Bool) (qs qs' : List Proc)
      → b ≡ b'
      → qs ≡ qs'
      → Stands ps i b qs
      → Stands ps i b' qs'
  Stands-as ps i b b' qs qs' e f s = subst (λ t. Stands ps i t qs') e (subst (Stands ps i b) f s)

  or_false : (b : Bool) → (b || false) ≡ b
  or_false true = refl
  or_false false = refl

  or_true : (b : Bool) → (b || true) ≡ true
  or_true true = refl
  or_true false = refl

  entry-child :
      (i : ℕ) (b : Bool) (j : ℕ) (p : Proc)
      → is_child cur (entry i b j p)
        ≡ (if ltb j i then is_child cur (given cur init p) else is_child cur p)
  unfolding sleeps_on
  entry-child i b j p = ground arith

  adopt_at-none : (i : ℕ) (ps : List Proc) → get_elem? ps i ≡ none → adopt_at cur init i ps ≡ ps
  unfolding adopt_at
  adopt_at-none i ps e = rw (e, adopt_at)

  adopt_at-other :
      (i : ℕ) (ps : List Proc) (p : Proc)
      → get_elem? ps i ≡ some p
      → is_child cur p ≡ false
      → adopt_at cur init i ps ≡ ps
  unfolding adopt_at
  adopt_at-other i ps p e c = rw (e, adopt_at, c)

  adopt_at-child :
      (i : ℕ) (ps : List Proc) (p : Proc)
      → get_elem? ps i ≡ some p
      → is_child cur p ≡ true
      → adopt_at cur init i ps ≡ (
          if is_zombie p.state
          then wakeup1 (chan_of init) (modify ps i (λ q. record q { parent = init }))
          else modify ps i (λ q. record q { parent = init }))
  unfolding adopt_at
  adopt_at-child i ps p e c = rw (e, adopt_at, c)

  entry-off : (i : ℕ) (b : Bool) (j : ℕ) (r : Proc) → j ≢ i → entry (suc i) b j r ≡ entry i b j r
  entry-off i b j r off =
      ap (λ t. woken b (chan_of init) (if t then given cur init r else r)) (same i j off)
    where
      same : (i j : ℕ) → j ≢ i → ltb j (suc i) ≡ ltb j i
      same i j off = ground arith

  entry-other :
      (i : ℕ) (b : Bool) (p : Proc) → is_child cur p ≡ false → entry (suc i) b i p ≡ entry i b i p
  unfolding sleeps_on
  entry-other i b p c = ground arith

  entry-given :
      (i : ℕ) (b : Bool) (p : Proc)
      → is_child cur p ≡ true
      → entry (suc i) b i p ≡ record (entry i b i p) { parent = init }
  unfolding sleeps_on
  entry-given i b p c = ground arith

  woken-woken : (b : Bool) (c : Chan) (p : Proc) → woken true c (woken b c p) ≡ woken true c p
  unfolding sleeps_on
  woken-woken b c p = ground arith

  zombie-entry : (i : ℕ) (b : Bool) (p : Proc) → is_zombie (entry i b i p).state ≡ is_zombie p.state
  unfolding sleeps_on
  zombie-entry i b p = ground arith

  child-entry : (i : ℕ) (b : Bool) (p : Proc) → is_child cur (entry i b i p) ≡ is_child cur p
  unfolding sleeps_on
  child-entry i b p = ground arith

  modify_here :
      (qs : List Proc) (i : ℕ) (f : Proc → Proc)
      → get_elem? (modify qs i f) i ≡ Option.map f (get_elem? qs i)
  modify_here qs i f = get_elem?-modify qs i i f ∙ ground arith

  modify_other :
      (qs : List Proc) (i j : ℕ) (f : Proc → Proc)
      → j ≢ i
      → get_elem? (modify qs i f) j ≡ get_elem? qs j
  modify_other qs i j f off = get_elem?-modify qs i j f ∙ ground arith

  -- The reading of one entry, pointwise on what stands there.
  read :
      (o : Option Proc) (f g : Proc → Proc)
      → ((r : Proc) → o ≡ some r → f r ≡ g r)
      → Option.map f o ≡ Option.map g o
  read none f g h = refl
  read (some r) f g h = ap some (h r refl)

  module _ (ps qs : List Proc) (i : ℕ) (b : Bool) (stands : Stands ps i b qs) where
    stay-none : get_elem? ps i ≡ none → Stands ps (suc i) b qs
    stay-none e j =
        stands j
        ∙ read (get_elem? ps j) (entry i b j) (entry (suc i) b j)
            (λ r g. sym (entry-off i b j r (λ same. none-ne-some r (sym e ∙ rw same at g))))

    stay-other :
        (p : Proc) → get_elem? ps i ≡ some p → is_child cur p ≡ false → Stands ps (suc i) b qs
    stay-other p e c j =
        stands j
        ∙ read (get_elem? ps j) (entry i b j) (entry (suc i) b j) (λ r g. elim (ℕ_discrete j i) [
          | no off ↦ sym (entry-off i b j r off)
          | yes same ↦
              let r_is_p = some_inj.0 (sym e ∙ (rw same at g)) in
              rw (same, ← r_is_p) (sym (entry-other i b p c))
        ])

    give :
        (p : Proc)
        → get_elem? ps i ≡ some p
        → is_child cur p ≡ true
        → Stands ps (suc i) b (modify qs i handed)
    give p e c j = elim (ℕ_discrete j i) [
      | yes same ↦
          subst
            (λ j.
              get_elem? (modify qs i handed) j ≡ Option.map (entry (suc i) b j) (get_elem? ps j))
            (sym same)
            (modify_here qs i handed
              ∙ ap (Option.map handed) (stands i ∙ ap (Option.map (entry i b i)) e)
              ∙ ap some (sym (entry-given i b p c))
              ∙ sym (ap (Option.map (entry (suc i) b i)) e))
      | no off ↦
          modify_other qs i j handed off
          ∙ stands j
          ∙ read (get_elem? ps j) (entry i b j) (entry (suc i) b j)
              (λ r g. sym (entry-off i b j r off))
    ]

  -- A wake-up of init after a pass.
  wake :
      (ps qs : List Proc) (i : ℕ) (b : Bool)
      → Stands ps i b qs
      → Stands ps i true (wakeup1 (chan_of init) qs)
  unfolding wakeup1
  wake ps qs i b stands j =
      get_elem?-map qs j (woken true (chan_of init))
      ∙ ap (Option.map (woken true (chan_of init))) (stands j)
      ∙ both (get_elem? ps j)
    where
      both :
          (o : Option Proc)
          → Option.map (woken true (chan_of init)) (Option.map (entry i b j) o)
            ≡ Option.map (entry i true j) o
      both none = refl
      both (some r) =
          ap some (woken-woken b (chan_of init) (if ltb j i then given cur init r else r))

  -- One pass of the loop, and the loop.
  module _ (ps qs : List Proc) (i : ℕ) (b : Bool) (stands : Stands ps i b qs) where
    pass_child :
        (p : Proc)
        → get_elem? ps i ≡ some p
        → is_child cur p ≡ true
        → Stands ps (suc i) (b || is_dead_child cur p) (adopt_at cur init i qs)
    pass_child p e c =
        let here = stands i ∙ ap (Option.map (entry i b i)) e in
        let next = adopt_at-child i qs (entry i b i p) here (child-entry i b p ∙ c) in
        let shows : (z : Bool)
            → is_zombie p.state ≡ z
            → adopt_at cur init i qs
              ≡ (if z then wakeup1 (chan_of init) (modify qs i handed) else modify qs i handed) =
          λ z e.
            next
            ∙ ap
                (λ t. if t then wakeup1 (chan_of init) (modify qs i handed) else modify qs i handed)
                (zombie-entry i b p ∙ e) in
        let dead : (z : Bool) → is_zombie p.state ≡ z → is_dead_child cur p ≡ z =
          λ z e. rw (c, e) refl in
        elim (Bool-cases (is_zombie p.state)) [
          | inl z ↦
              Stands-as ps (suc i) true (b || is_dead_child cur p) _ _
                (sym (or_true b) ∙ ap (λ t. b || t) (sym (dead true z))) (sym (shows true z))
                (wake ps _ (suc i) b (give ps qs i b stands p e c))
          | inr z ↦
              Stands-as ps (suc i) b (b || is_dead_child cur p) _ _
                (sym (or_false b) ∙ ap (λ t. b || t) (sym (dead false z))) (sym (shows false z))
                (give ps qs i b stands p e c)
        ]

    pass :
        (o : Option Proc)
        → get_elem? ps i ≡ o
        → Stands ps (suc i) (b || dead_at o) (adopt_at cur init i qs)
    pass none e =
        rw (adopt_at-none i qs (stands i ∙ ap (Option.map (entry i b i)) e), or_false b)
          (stay-none ps qs i b stands e)
    pass (some p) e = elim (Bool-cases (is_child cur p)) [
      | inl c ↦ pass_child p e c
      | inr c ↦
          rw
            (
              adopt_at-other i qs (entry i b i p) (stands i ∙ ap (Option.map (entry i b i)) e)
                  (child-entry i b p ∙ c),
              c,
              or_false b,
            )
            (stay-other ps qs i b stands p e c)
    ]

  pub adopt-Stands :
      (n : ℕ) (ps qs : List Proc) (i : ℕ) (b : Bool)
      → Stands ps i b qs
      → Stands ps (i + n) (b || dead_from ps n i) (adopt cur init n i qs)
  unfolding adopt dead_from
  adopt-Stands zero ps qs i b stands =
      Stands-at ps i (i + 0) (b || false) qs (ground arith)
        (Stands-as ps i b (b || false) qs qs (sym (or_false b)) refl stands)
  adopt-Stands (suc n) ps qs i b stands =
      Stands-at ps (suc i + n) (i + suc n) (b || dead_from ps (suc n) i)
        (adopt cur init (suc n) i qs) (ground arith)
        (Stands-as ps (suc i + n) _ _ _ _
          (or_assoc b (dead_at (get_elem? ps i)) (dead_from ps n (suc i))) refl
          (adopt-Stands n ps _ (suc i) _ (pass ps qs i b stands (get_elem? ps i) refl)))
