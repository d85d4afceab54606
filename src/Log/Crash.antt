-- ===== src/Log/Crash.antt =====
-- log.c: what a crash leaves on the disk, and what recovery makes of it.
use ele.Common.{
  has, ℕ, zero, suc, ◌+◌, ◌<◌, ◌≤◌, ◌≡◌, ◌≢◌, refl, sym, ap, subst, ◌∙◌, true, List, [], ◌∷◌, ◌++◌,
  arith, length, take, take-nil, All, ℕ_discrete, inl, inr, ◌⊎◌,
}
use ele.Log.Disk.{after, after-++, Keeps, after-Keeps, after-all, after-take-++}
use ele.Log.Traces.{
  IsHome, Held-start, IsHome-off, put_block-here, put_block-other, head_words-head_block,
  head_words-empty, images, homes, Held, Held-home, recover-trace,
}
use ele.Log.{Block, Cache, Write, put_block, head_words, head_block, recover}

-- The log is empty, and the blocks outside it are those of `e`.
pub record Settled (start room : ℕ) (e d : Cache) : Type 0 where
  pub head : head_words (d start) ≡ []
  pub blocks : (b : ℕ) → IsHome start room b → d b ≡ e b

-- A commit of the blocks `bs` in a log with room for `room` entries: the disk `d0` holds an empty log,
-- and the cache `c0` differs from it, outside the log, only in those blocks.
module _ (start room : ℕ) (bs : List ℕ) (d0 c0 : Cache) (at_home : All (IsHome start room) bs)
    (fits : length bs ≤ room) (clean : head_words (d0 start) ≡ [])
    (cached : (b : ℕ) → IsHome start room b → (has b bs ≡ true) ⊎ (d0 b ≡ c0 b)) where
  -- The log holds the whole transaction, and the blocks of it may be in place or not.
  pub record Logged (d : Cache) : Type 0 where
    pub head : head_words (d start) ≡ bs
    pub held : Held start room c0 d 0 bs
    pub blocks : (b : ℕ) → IsHome start room b → (has b bs ≡ true) ⊎ (d b ≡ c0 b)

  home-start : (b : ℕ) → IsHome start room b → b ≢ start
  home-start b h e = IsHome-off start room b 0 h (omega arith) (omega (arith, e))

  images-Settled :
      (xs : List ℕ) (t : ℕ)
      → t + length xs ≤ room
      → Keeps (Settled start room d0) (images start room c0 t xs)
  images-Settled [] t l = tt
  images-Settled (a ∷ xs) t l = (
    (λ d h. record {
      head = rw (put_block-other (start + t + 1) (c0 a) d start (omega arith)) h.head;
      blocks = λ b home.
          put_block-other (start + t + 1) (c0 a) d b
            (λ e. IsHome-off start room b (t + 1) home (omega arith) (omega (arith, e)))
          ∙ h.blocks b home;
    }),
    images-Settled xs (suc t) (omega arith),
  )

  homes-Logged : (xs : List ℕ) → All (IsHome start room) xs → Keeps Logged (homes start room c0 xs)
  homes-Logged [] hs = tt
  homes-Logged (a ∷ xs) hs = (
    (λ d h. record {
      head = rw (put_block-other a (c0 a) d start (λ e. home-start a hs.0 (sym e))) h.head;
      held = Held-home start room c0 bs 0 a (c0 a) d hs.0 (omega arith) h.held;
      blocks = λ b home. elim (ℕ_discrete a b) [
        | yes e ↦ inr (subst (λ b. put_block a (c0 a) d b ≡ c0 b) e (put_block-here a (c0 a) d))
        | no off ↦
            subst (λ v. (has b bs ≡ true) ⊎ (v ≡ c0 b))
              (sym (put_block-other a (c0 a) d b (λ e. off (sym e)))) (h.blocks b home)
      ];
    }),
    homes-Logged xs hs.1,
  )

  -- An entry of the log below those that the images fill.
  images-lower :
      (xs : List ℕ) (t i : ℕ) (d : Cache)
      → i ≤ t
      → after (images start room c0 t xs) d (start + i) ≡ d (start + i)
  images-lower [] t i d l = refl
  images-lower (x ∷ xs) t i d l =
      images-lower xs (suc t) i (put_block (start + t + 1) (c0 x) d) (omega arith)
      ∙ put_block-other (start + t + 1) (c0 x) d (start + i) (omega arith)

  images-Held :
      (xs : List ℕ) (t : ℕ) (d : Cache)
      → Held start room c0 (after (images start room c0 t xs) d) t xs
  images-Held [] t d = tt
  images-Held (x ∷ xs) t d =
      let d1 = put_block (start + t + 1) (c0 x) d in
      let e : start + suc t ≡ start + t + 1 = omega arith in
      (
        subst (λ a. after (images start room c0 (suc t) xs) d1 a ≡ c0 x) e
            (images-lower xs (suc t) (suc t) d1 (omega arith)
              ∙ subst (λ a. d1 a ≡ c0 x) (sym e) (put_block-here (start + t + 1) (c0 x) d)),
        images-Held xs (suc t) d1,
      )

  homes-all :
      (xs : List ℕ) (d : Cache) (b : ℕ)
      → (has b xs ≡ true) ⊎ (d b ≡ c0 b)
      → after (homes start room c0 xs) d b ≡ c0 b
  homes-all [] d b (inl h) = cc
  homes-all [] d b (inr h) = h
  homes-all (x ∷ xs) d b h = homes-all xs (put_block x (c0 x) d) b (elim (ℕ_discrete x b) [
    | yes e ↦ inr (subst (λ b. put_block x (c0 x) d b ≡ c0 b) e (put_block-here x (c0 x) d))
    | no off ↦ still x xs b d h off
  ])
    where
      still :
          (x : ℕ) (xs : List ℕ) (b : ℕ) (d : Cache)
          → (has b (x ∷ xs) ≡ true) ⊎ (d b ≡ c0 b)
          → x ≢ b
          → (has b xs ≡ true) ⊎ (put_block x (c0 x) d b ≡ c0 b)
      still x xs b d (inl h) off = inl (ground arith)
      still x xs b d (inr h) off = inr (put_block-other x (c0 x) d b (λ e. off (sym e)) ∙ h)

  -- The header, once written, logs the transaction; and once emptied, settles it.
  logs :
      (d : Cache)
      → length bs < length (c0 start)
      → Settled start room d0 d
      → Held start room c0 d 0 bs
      → Logged (put_block start (head_block bs (c0 start)) d)
  logs d l s h = record {
    head =
        ap head_words (put_block-here start (head_block bs (c0 start)) d)
        ∙ head_words-head_block bs (c0 start) l;
    held = Held-start start room c0 bs 0 (head_block bs (c0 start)) d h;
    blocks = λ b home.
        subst (λ v. (has b bs ≡ true) ⊎ (v ≡ c0 b))
          (sym (
            put_block-other start (head_block bs (c0 start)) d b (home-start b home)
            ∙ s.blocks b home))
          (cached b home);
  }

  settles :
      (e d : Cache) (x : Block)
      → ((b : ℕ) → IsHome start room b → d b ≡ e b)
      → Settled start room e (put_block start (head_block [] x) d)
  settles e d x h = record {
    head = ap head_words (put_block-here start (head_block [] x) d) ∙ head_words-empty x;
    blocks = λ b home. put_block-other start (head_block [] x) d b (home-start b home) ∙ h b home;
  }

  -- The disk is as before the commit, logs it, or is as after it.
  pub data Stage (d : Cache) : Type 0 where
    before : Settled start room d0 d → Stage d
    logged : Logged d → Stage d
    done : Settled start room c0 d → Stage d

  abbrev pub end : Block → List Write
  end x = (start, head_block [] x) ∷ []

  install_stage :
      (x : Block) (k : ℕ) (d : Cache)
      → Logged d
      → Stage (after (take k (homes start room c0 bs ++ end x)) d)
  install_stage x k d l = elim (after-take-++ (homes start room c0 bs) (end x) k d) [
    | inl e ↦
        rw e (logged (after-Keeps Logged (homes start room c0 bs) k d (homes-Logged bs at_home) l))
    | inr (j, e) ↦ rw e (
        last j (after (homes start room c0 bs) d)
          (after-all Logged (homes start room c0 bs) d (homes-Logged bs at_home) l)
          (λ b home. homes-all bs d b (l.blocks b home)))
  ]
    where
      last :
          (j : ℕ) (d : Cache)
          → Logged d
          → ((b : ℕ) → IsHome start room b → d b ≡ c0 b)
          → Stage (after (take j (end x)) d)
      last zero d l h = logged l
      last (suc j) d l h =
          subst (λ w. Stage (after w (put_block start (head_block [] x) d)))
            (sym (take-nil Write j)) (done (settles c0 d x h))

  Settled-stage :
      (e d : Cache) (x : Block) (k : ℕ)
      → Settled start room e d
      → Settled start room e (after (take k (end x)) d)
  Settled-stage e d x zero s = s
  Settled-stage e d x (suc k) s =
      subst (λ w. Settled start room e (after w (put_block start (head_block [] x) d)))
        (sym (take-nil Write k)) (settles e d x s.blocks)

  -- A commit that stops after any number of its writes.
  pub commit_stage :
      (x : Block) (k : ℕ)
      → length bs < length (c0 start)
      → Stage (
          after
            (take k (
              images start room c0 0 bs
              ++ (((start, head_block bs (c0 start)) ∷ []) ++ (homes start room c0 bs ++ end x))))
            d0)
  commit_stage x k room_left =
      elim (after-take-++ (images start room c0 0 bs)
        (((start, head_block bs (c0 start)) ∷ []) ++ (homes start room c0 bs ++ end x)) k d0) [
          | inl e ↦ rw e (
              before (
                after-Keeps (Settled start room d0) (images start room c0 0 bs) k d0 keeps
                  clean_disk))
          | inr (j, e) ↦ rw e (header j)
        ]
    where
      clean_disk : Settled start room d0 d0
      clean_disk = record { head = clean; blocks = λ b home. refl }

      keeps : Keeps (Settled start room d0) (images start room c0 0 bs)
      keeps = images-Settled bs 0 (omega (arith, fits))

      header :
          (j : ℕ)
          → Stage (
              after
                (take j ((start, head_block bs (c0 start)) ∷ (homes start room c0 bs ++ end x)))
                (after (images start room c0 0 bs) d0))
      header zero =
          before (after-all (Settled start room d0) (images start room c0 0 bs) d0 keeps clean_disk)
      header (suc j) =
          install_stage x j
            (put_block start (head_block bs (c0 start)) (after (images start room c0 0 bs) d0))
            (logs (after (images start room c0 0 bs) d0) room_left
              (after-all (Settled start room d0) (images start room c0 0 bs) d0 keeps clean_disk)
              (images-Held bs 0 d0))

  -- A recovery that stops after any number of its writes.
  pub recover_stage : (k : ℕ) (d : Cache) → Stage d → Stage (after (take k (recover start d).1) d)
  recover_stage k d (before s) =
      let (x, e) = recover-trace start room c0 [] d tt (omega arith) s.head tt in
      rw e (before (Settled-stage d0 d x k s))
  recover_stage k d (done s) =
      let (x, e) = recover-trace start room c0 [] d tt (omega arith) s.head tt in
      rw e (done (Settled-stage c0 d x k s))
  recover_stage k d (logged l) =
      let (x, e) = recover-trace start room c0 bs d at_home fits l.head l.held in
      rw e (install_stage x k d l)

  -- A whole recovery.
  pub recovered :
      (d : Cache)
      → Stage d
      → Settled start room d0 (after (recover start d).1 d)
        ⊎ Settled start room c0 (after (recover start d).1 d)
  recovered d (before s) =
      let (x, e) = recover-trace start room c0 [] d tt (omega arith) s.head tt in
      inl (rw e (Settled-stage d0 d x 1 s))
  recovered d (done s) =
      let (x, e) = recover-trace start room c0 [] d tt (omega arith) s.head tt in
      inr (rw e (Settled-stage c0 d x 1 s))
  recovered d (logged l) =
      let (x, e) = recover-trace start room c0 bs d at_home fits l.head l.held in
      inr (
        rw (e, after-++ (homes start room c0 bs) (end x) d)
          (settles c0 (after (homes start room c0 bs) d) x
            (λ b home. homes-all bs d b (l.blocks b home))))
