-- ===== src/Fs/Clear.antt =====
-- The loops of `itrunc` in fs.c.
use ele.Common.{
  word_at, word_at-same, ℕ, zero, suc, ◌+◌, ◌%◌, ◌-◌, ◌<◌, ◌≤◌, ◌≡◌, ◌≢◌, ◌∙◌, ap, sym, subst,
  arith, ℕ_discrete, ◌==◌, true, false, some, Returns, length, get_or, set, get_or-set_self,
  get_or-set_ne, length-set,
}
use ele.Fs.{Disk, Superblock, Inode, bitmap_block, unmark, bfree}
use ele.Fs.Map.{IsData}
use ele.Fs.Content.{set_addr, free_addrs, free_words}
use ele.Fs.Slots.{slot, slot_direct, slot_word, slot_last, IsFile}
use ele.Fs.Freed.{IsFreed, IsFreed-skip, IsFreed-next, bfree_slot}

-- The addresses of `ip` from `i` on stand in `jp`, and the first ones are cleared.
pub record IsCleared (ip : Inode) (i : ℕ) (jp : Inode) : Type 0 where
  pub sized : length jp.addrs ≡ 13
  pub zeros : (n : ℕ) → n < i → get_or jp.addrs n 0 ≡ 0
  pub rest : (n : ℕ) → i ≤ n → get_or jp.addrs n 0 ≡ get_or ip.addrs n 0
  pub same_inum : jp.inum ≡ ip.inum

module _ {ip jp : Inode} {i : ℕ} (c : IsCleared ip i jp) where
  pub IsCleared-skip : get_or jp.addrs i 0 ≡ 0 → IsCleared ip (suc i) jp
  IsCleared-skip z = record {
    sized = c.sized;
    zeros = λ n l. elim (ℕ_discrete n i) [
      | yes here ↦ ap (λ n. get_or jp.addrs n 0) here ∙ z
      | no off ↦ c.zeros n (omega (arith, l, off))
    ];
    rest = λ n l. c.rest n (omega (arith, l));
    same_inum = c.same_inum;
  }

  pub IsCleared-set : i < 13 → IsCleared ip (suc i) (set_addr i 0 jp)
  IsCleared-set small = record {
    sized = length-set jp.addrs i 0 ∙ c.sized;
    zeros = λ n l. elim (ℕ_discrete n i) [
      | yes here ↦
          ap (λ n. get_or (set jp.addrs i 0) n 0) here
          ∙ get_or-set_self jp.addrs i 0 0 (omega (arith, small, c.sized))
      | no off ↦
          get_or-set_ne jp.addrs i n 0 0 (λ s. off (sym s)) ∙ c.zeros n (omega (arith, l, off))
    ];
    rest = λ n l.
        get_or-set_ne jp.addrs i n 0 0 (λ s. omega (arith, l, s)) ∙ c.rest n (omega (arith, l));
    same_inum = c.same_inum;
  }

module _ (n i : ℕ) (sb : Superblock) (ip : Inode) (d : Disk) where
  free_addrs_skip :
      get_or ip.addrs i 0 ≡ 0 → free_addrs (suc n) i sb ip d ≡ free_addrs n (i + 1) sb ip d
  unfolding free_addrs
  free_addrs_skip z = rw (free_addrs, z)

  free_addrs_next :
      (e : Disk)
      → get_or ip.addrs i 0 ≢ 0
      → bfree sb (get_or ip.addrs i 0) d ≡ some e
      → free_addrs (suc n) i sb ip d ≡ free_addrs n (i + 1) sb (set_addr i 0 ip) e
  unfolding free_addrs
  free_addrs_next e nz f = rw (free_addrs, nonzero (get_or ip.addrs i 0) nz, f)
    where
      nonzero : (v : ℕ) → v ≢ 0 → (v == 0) ≡ false
      nonzero v h = ground arith

module _ (n j x : ℕ) (sb : Superblock) (d : Disk) where
  free_words_skip : word_at x j d ≡ 0 → free_words (suc n) j x sb d ≡ free_words n (j + 1) x sb d
  unfolding free_words
  free_words_skip z = rw (free_words, zero_there (word_at x j d) z)
    where
      zero_there : (v : ℕ) → v ≡ 0 → (v == 0) ≡ true
      zero_there v h = ground arith

  free_words_next :
      (e : Disk)
      → word_at x j d ≢ 0
      → bfree sb (word_at x j d) d ≡ some e
      → free_words (suc n) j x sb d ≡ free_words n (j + 1) x sb e
  unfolding free_words
  free_words_next e nz f = rw (free_words, nonzero (word_at x j d) nz, f)
    where
      nonzero : (v : ℕ) → v ≢ 0 → (v == 0) ≡ false
      nonzero v h = ground arith

one_more : (i : ℕ) → suc i ≡ i + 1
one_more i = omega arith

module _ {sb : Superblock} {ip : Inode} {d : Disk} (f : IsFile sb ip d) where
  unfoldable pub AddrsFreed : Inode × Disk → Type 0
  AddrsFreed r = IsFreed sb ip d 12 r.1 × IsCleared ip 12 r.0

  pub free_addrs-IsFreed :
      (n i : ℕ) (jp : Inode) (e : Disk)
      → n + i ≡ 12
      → IsFreed sb ip d i e
      → IsCleared ip i jp
      → Returns (free_addrs n i sb jp e) AddrsFreed
  unfolding free_addrs AddrsFreed
  free_addrs-IsFreed zero i jp e sum r c = (
    subst (λ k. IsFreed sb ip d k e) (at_end i sum) r,
    subst (λ k. IsCleared ip k jp) (at_end i sum) c,
  )
    where
      at_end : (i : ℕ) → 0 + i ≡ 12 → i ≡ 12
      at_end i h = omega (arith, h)
  free_addrs-IsFreed (suc n) i jp e sum r c =
      let same : get_or jp.addrs i 0 ≡ slot ip d i =
        c.rest i (omega arith) ∙ sym (slot_direct ip d i (omega (arith, sum))) in
      elim (ℕ_discrete (slot ip d i) 0) [
        | yes z ↦
            subst (λ o. Returns o AddrsFreed) (sym (free_addrs_skip n i sb jp e (same ∙ z)))
              (free_addrs-IsFreed n (i + 1) jp e (omega (arith, sum))
                (IsFreed-skip (i + 1) (omega arith)
                  (λ m l u. subst (λ k. slot ip d k ≡ 0) (only m i l u) z) r)
                (subst (λ k. IsCleared ip k jp) (one_more i) (IsCleared-skip c (same ∙ z))))
        | no nz ↦
            let l : i < 141 = omega (arith, sum) in
            let g = unmark (bitmap_block sb (slot ip d i)) (slot ip d i % 4096) e in
            subst (λ o. Returns o AddrsFreed)
              (sym (
                free_addrs_next n i sb jp e g (λ z. nz (sym same ∙ z))
                  (ap (λ v. bfree sb v e) same ∙ bfree_slot f l nz r)))
              (free_addrs-IsFreed n (i + 1) (set_addr i 0 jp) g (omega (arith, sum))
                (subst (λ k. IsFreed sb ip d k g) (one_more i) (IsFreed-next f l nz r))
                (subst (λ k. IsCleared ip k (set_addr i 0 jp)) (one_more i)
                  (IsCleared-set c (omega (arith, sum)))))
      ]
    where
      only : (m i : ℕ) → i ≤ m → m < i + 1 → i ≡ m
      only m i l u = omega (arith, l, u)

  -- The words of the indirect block.
  pub free_words-IsFreed :
      (n j : ℕ) (e : Disk)
      → n + j ≡ 128
      → get_or ip.addrs 12 0 ≢ 0
      → IsFreed sb ip d (12 + j) e
      → Returns (free_words n j (get_or ip.addrs 12 0) sb e) (IsFreed sb ip d 140)
  unfolding free_words
  free_words-IsFreed zero j e sum some_block r = subst (λ k. IsFreed sb ip d k e) (last j sum) r
    where
      last : (j : ℕ) → 0 + j ≡ 128 → 12 + j ≡ 140
      last j h = omega (arith, h)
  free_words-IsFreed (suc n) j e sum some_block r =
      let x = get_or ip.addrs 12 0 in
      let last = slot_last ip d 140 (omega arith) in
      let same : word_at x j e ≡ slot ip d (12 + j) =
        word_at-same x j d e (omega (arith, sum)) (λ p l. r.data_same x p (
          subst (IsData sb) last
            (f.data_blocks 140 (omega arith) (λ z. some_block (sym last ∙ z)))))
        ∙ ap (λ k. word_at x k d) (back j)
        ∙ sym (slot_word ip d (12 + j) (omega arith) (omega (arith, sum)) some_block) in
      elim (ℕ_discrete (slot ip d (12 + j)) 0) [
        | yes z ↦
            subst (λ o. Returns o (IsFreed sb ip d 140))
              (sym (free_words_skip n j x sb e (same ∙ z)))
              (free_words-IsFreed n (j + 1) e (omega (arith, sum)) some_block (
                IsFreed-skip (12 + (j + 1)) (omega arith)
                  (λ m l u. subst (λ k. slot ip d k ≡ 0) (only m j l u) z) r))
        | no nz ↦
            let l : 12 + j < 141 = omega (arith, sum) in
            let g = unmark (bitmap_block sb (slot ip d (12 + j))) (slot ip d (12 + j) % 4096) e in
            subst (λ o. Returns o (IsFreed sb ip d 140))
              (sym (
                free_words_next n j x sb e g (λ z. nz (sym same ∙ z))
                  (ap (λ v. bfree sb v e) same ∙ bfree_slot f l nz r)))
              (free_words-IsFreed n (j + 1) g (omega (arith, sum)) some_block
                (subst (λ k. IsFreed sb ip d k g) (one_on j) (IsFreed-next f l nz r)))
      ]
    where
      back : (j : ℕ) → j ≡ 12 + j - 12
      back j = omega arith

      one_on : (j : ℕ) → suc (12 + j) ≡ 12 + (j + 1)
      one_on j = omega arith

      only : (m j : ℕ) → 12 + j ≤ m → m < 12 + (j + 1) → 12 + j ≡ m
      only m j l u = omega (arith, l, u)
