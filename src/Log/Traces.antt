-- ===== src/Log/Traces.antt =====
-- log.c: the disk writes of `write_log` and `install_trans`, written out.
use ele.Common.{
  ℕ, suc, ◌+◌, ◌<◌, ◌≤◌, ◌≡◌, ◌≢◌, refl, sym, ap, subst, ◌∙◌, List, [], ◌∷◌, ◌++◌, arith, length,
  take, All, inl, inr, ◌⊎◌,
}
use ele.Log.{
  Block, Cache, Write, put_block, head_words, head_block, put_words, write_log, write_head,
  install_trans, commit, recover, read_head,
}

pub put_block-here : (b : ℕ) (v : Block) (c : Cache) → put_block b v c b ≡ v
put_block-here b v c = ground arith

pub put_block-other : (b : ℕ) (v : Block) (c : Cache) (a : ℕ) → a ≢ b → put_block b v c a ≡ c a
put_block-other b v c a off = ground arith

-- A block outside a log with room for `room` blocks.
abbrev pub IsHome : ℕ → ℕ → ℕ → Type 0
IsHome start room b = (b < start) ⊎ (start + room < b)

pub IsHome-off : (start room b i : ℕ) → IsHome start room b → i ≤ room → b ≢ start + i
IsHome-off start room b i (inl h) l e = omega arith
IsHome-off start room b i (inr h) l e = omega arith

-- The number of entries, and the entries, can be read back from a header that fits in its block.
pub head_words-head_block :
    (bs : List ℕ) (b : Block) → length bs < length b → head_words (head_block bs b) ≡ bs
unfolding put_words
head_words-head_block bs [] h = absurd (omega arith)
head_words-head_block bs (x ∷ b) h = back bs b (omega arith)
  where
    back : (bs : List ℕ) (b : Block) → length bs ≤ length b → take (length bs) (put_words bs b) ≡ bs
    back [] b h = refl
    back (w ∷ ws) [] h = absurd (omega arith)
    back (w ∷ ws) (x ∷ b) h = ap (λ l. w ∷ l) (back ws b (omega arith))

pub head_words-empty : (b : Block) → head_words (head_block [] b) ≡ []
unfolding put_words
head_words-empty [] = refl
head_words-empty (x ∷ b) = refl

module _ (start room : ℕ) (c0 : Cache) where
  -- The images of blocks in the log from entry `t` on, and the blocks in their places.
  abbrev pub images : ℕ → List ℕ → List Write
  images t [] = []
  images t (b ∷ bs) = (start + t + 1, c0 b) ∷ images (suc t) bs

  abbrev pub homes : List ℕ → List Write
  homes [] = []
  homes (b ∷ bs) = (b, c0 b) ∷ homes bs

  -- The log's entries from `t` on are the contents of `bs`.
  abbrev pub Held : Cache → ℕ → List ℕ → Type 0
  Held d t [] = Unit
  Held d t (b ∷ bs) = (d (start + t + 1) ≡ c0 b) × Held d (suc t) bs

  -- A cache that differs from `c0` in the log only.
  abbrev pub Agrees : Cache → Type 0
  Agrees c = (b : ℕ) → IsHome start room b → c b ≡ c0 b

  pub Agrees-log :
      (c : Cache) (t : ℕ) (v : Block) → t < room → Agrees c → Agrees (put_block (start + t + 1) v c)
  Agrees-log c t v l h b home =
      put_block-other (start + t + 1) v c b
        (λ e. IsHome-off start room b (t + 1) home (omega arith) (omega (arith, e)))
      ∙ h b home

  pub write_log-trace :
      (bs : List ℕ) (t : ℕ) (c : Cache)
      → All (IsHome start room) bs
      → t + length bs ≤ room
      → Agrees c
      → (write_log start t bs c).1 ≡ images t bs
  unfolding write_log
  write_log-trace [] t c hs l h = refl
  write_log-trace (b ∷ bs) t c hs l h =
      ap (λ l. (start + t + 1, c b) ∷ l)
        (write_log-trace bs (suc t) (put_block (start + t + 1) (c b) c) hs.1 (omega arith)
          (Agrees-log c t (c b) (omega arith) h))
      ∙ ap (λ v. (start + t + 1, v) ∷ images (suc t) bs) (h b hs.0)

  -- The log's blocks below the entry `t`, with the header.
  pub write_log-lower :
      (bs : List ℕ) (t i : ℕ) (c : Cache)
      → i ≤ t
      → (write_log start t bs c).0 (start + i) ≡ c (start + i)
  unfolding write_log
  write_log-lower [] t i c l = refl
  write_log-lower (b ∷ bs) t i c l =
      write_log-lower bs (suc t) i (put_block (start + t + 1) (c b) c) (omega arith)
      ∙ put_block-other (start + t + 1) (c b) c (start + i) (omega arith)

  zero_off : start + 0 ≡ start
  zero_off = omega arith

  entry : (t : ℕ) → start + suc t ≡ start + t + 1
  entry t = omega arith

  pub write_log-Held :
      (bs : List ℕ) (t : ℕ) (c : Cache)
      → All (IsHome start room) bs
      → t + length bs ≤ room
      → Agrees c
      → Held (write_log start t bs c).0 t bs
  unfolding write_log
  write_log-Held [] t c hs l h = tt
  write_log-Held (b ∷ bs) t c hs l h =
      let c1 = put_block (start + t + 1) (c b) c in
      (
        subst (λ a. (write_log start (suc t) bs c1).0 a ≡ c0 b) (entry t)
            (write_log-lower bs (suc t) (suc t) c1 (omega arith)
              ∙ subst (λ a. c1 a ≡ c0 b) (sym (entry t))
                  (put_block-here (start + t + 1) (c b) c ∙ h b hs.0)),
        write_log-Held bs (suc t) c1 hs.1 (omega arith) (Agrees-log c t (c b) (omega arith) h),
      )

  write_log-Agrees :
      (bs : List ℕ) (t : ℕ) (c : Cache)
      → t + length bs ≤ room
      → Agrees c
      → Agrees (write_log start t bs c).0
  unfolding write_log
  write_log-Agrees [] t c l h = h
  write_log-Agrees (b ∷ bs) t c l h =
      write_log-Agrees bs (suc t) (put_block (start + t + 1) (c b) c) (omega arith)
        (Agrees-log c t (c b) (omega arith) h)

  pub Held-home :
      (bs : List ℕ) (t b : ℕ) (v : Block) (d : Cache)
      → IsHome start room b
      → t + length bs ≤ room
      → Held d t bs
      → Held (put_block b v d) t bs
  Held-home [] t b v d home l h = tt
  Held-home (x ∷ bs) t b v d home l h = (
    put_block-other b v d (start + t + 1)
          (λ e. IsHome-off start room b (t + 1) home (omega arith) (omega (arith, e)))
        ∙ h.0,
    Held-home bs (suc t) b v d home (omega arith) h.1,
  )

  pub install_trans-trace :
      (bs : List ℕ) (t : ℕ) (c : Cache)
      → All (IsHome start room) bs
      → t + length bs ≤ room
      → Held c t bs
      → (install_trans start t bs c).1 ≡ homes bs
  unfolding install_trans
  install_trans-trace [] t c hs l h = refl
  install_trans-trace (b ∷ bs) t c hs l h =
      let c1 = put_block b (c (start + t + 1)) c in
      ap (λ l. (b, c (start + t + 1)) ∷ l)
        (install_trans-trace bs (suc t) c1 hs.1 (omega arith)
          (Held-home bs (suc t) b (c (start + t + 1)) c hs.0 (omega arith) h.1))
      ∙ ap (λ v. (b, v) ∷ homes bs) h.0

  pub install_trans-start :
      (bs : List ℕ) (t : ℕ) (c : Cache)
      → All (IsHome start room) bs
      → (install_trans start t bs c).0 start ≡ c start
  unfolding install_trans
  install_trans-start [] t c hs = refl
  install_trans-start (b ∷ bs) t c hs =
      install_trans-start bs (suc t) (put_block b (c (start + t + 1)) c) hs.1
      ∙ put_block-other b (c (start + t + 1)) c start
          (λ e. IsHome-off start room b 0 hs.0 (omega arith) (omega (arith, e)))

  pub Held-start :
      (bs : List ℕ) (t : ℕ) (v : Block) (d : Cache) → Held d t bs → Held (put_block start v d) t bs
  Held-start [] t v d h = tt
  Held-start (x ∷ bs) t v d h =
      (put_block-other start v d (start + t + 1) (omega arith) ∙ h.0, Held-start bs (suc t) v d h.1)

  -- The writes of a commit: the images, the header, the blocks in their places, and an empty header.
  pub commit-trace :
      (b : ℕ) (bs : List ℕ)
      → All (IsHome start room) (b ∷ bs)
      → length (b ∷ bs) ≤ room
      → (x : Block) × ((commit start (b ∷ bs) c0).1
          ≡ images 0 (b ∷ bs)
            ++ (((start, head_block (b ∷ bs) (c0 start)) ∷ [])
                ++ (homes (b ∷ bs) ++ ((start, head_block [] x) ∷ []))))
  unfolding commit write_head
  commit-trace b bs hs l =
      let l0 : 0 + length (b ∷ bs) ≤ room = omega (arith, l) in
      let agree : Agrees c0 = λ a home. refl in
      let c1 = (write_log start 0 (b ∷ bs) c0).0 in
      let e1 = write_log-trace (b ∷ bs) 0 c0 hs l0 agree in
      let low : c1 start ≡ c0 start =
        subst (λ a. c1 a ≡ c0 a) zero_off (write_log-lower (b ∷ bs) 0 0 c0 (omega arith)) in
      let h = head_block (b ∷ bs) (c1 start) in
      let c2 = put_block start h c1 in
      let held : Held c2 0 (b ∷ bs) =
        Held-start (b ∷ bs) 0 h c1 (write_log-Held (b ∷ bs) 0 c0 hs l0 agree) in
      let e2 = install_trans-trace (b ∷ bs) 0 c2 hs l0 held in
      let x = (install_trans start 0 (b ∷ bs) c2).0 start in
      let vs = (install_trans start 0 (b ∷ bs) c2).1 in
      let end : List Write = (start, head_block [] x) ∷ [] in
      (
        x,
        ap (λ w. w ++ (((start, h) ∷ []) ++ (vs ++ end))) e1
            ∙ ap (λ z. images 0 (b ∷ bs) ++ (((start, head_block (b ∷ bs) z) ∷ []) ++ (vs ++ end)))
                low
            ∙ ap
                (λ w.
                  images 0 (b ∷ bs)
                  ++ (((start, head_block (b ∷ bs) (c0 start)) ∷ []) ++ (w ++ end)))
                e2,
      )

  -- The writes of a recovery from a log that holds the blocks `bs`.
  pub recover-trace :
      (bs : List ℕ) (d : Cache)
      → All (IsHome start room) bs
      → length bs ≤ room
      → head_words (d start) ≡ bs
      → Held d 0 bs
      → (x : Block) × ((recover start d).1 ≡ homes bs ++ ((start, head_block [] x) ∷ []))
  unfolding recover read_head write_head
  recover-trace bs d hs l e h =
      let moved = install_trans-trace bs 0 d hs (omega (arith, l)) h in
      let x = (install_trans start 0 (head_words (d start)) d).0 start in
      (
        x,
        ap (λ w. w ++ ((start, head_block [] x) ∷ []))
            (subst (λ z. (install_trans start 0 z d).1 ≡ homes bs) (sym e) moved),
      )
