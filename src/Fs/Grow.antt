-- ===== src/Fs/Grow.antt =====
-- `bmap` of fs.c, step by step: each new block extends the file.
use ele.Common.{
  word_at, put_word, put_word_away, word_at-put_word_self, word_at-put_word_ne, word_at-same, ℕ,
  ◌+◌, ◌*◌, ◌^◌, ◌-◌, ◌<◌, ◌≡◌, ◌≢◌, ◌∙◌, ap, sym, subst, arith, ℕ_discrete, dec_lt, get_or, set,
  get_or-set_self, get_or-set_ne, length-set,
}
use ele.Fs.{Disk, Superblock, Inode, bitmap_block}
use ele.Fs.Map.{in_use, IsData, in_use-same}
use ele.Fs.Content.{set_addr}
use ele.Fs.Slots.{slot, slot_direct, slot_word, slot_none, slot_last, IsFile, Claimed, Extends}

module _ {sb : Superblock} {ip : Inode} {d e : Disk} {a : ℕ} (f : IsFile sb ip d)
    (c : Claimed sb d a e) where
  -- A block in use is not the new one.
  pub claimed_apart : (n : ℕ) → n < 141 → slot ip d n ≢ 0 → a ≢ slot ip d n
  claimed_apart n l nz same = f.used n l nz (subst (λ b. in_use sb b d ≡ 0) same c.was_free)

  -- The words of the indirect block stay.
  words_stay :
      get_or ip.addrs 12 0 ≢ 0
      → (j : ℕ) → j < 128
      → word_at (get_or ip.addrs 12 0) j e ≡ word_at (get_or ip.addrs 12 0) j d
  words_stay nz j l =
      let last = slot_last ip d 140 (omega arith) in
      let nz' : slot ip d 140 ≢ 0 = λ z. nz (sym last ∙ z) in
      word_at-same (get_or ip.addrs 12 0) j d e l (λ p k.
        c.kept (get_or ip.addrs 12 0) p
          (subst (IsData sb) last (f.data_blocks 140 (omega arith) nz'))
          (λ same. claimed_apart 140 (omega arith) nz' (same ∙ sym last)))

  pub Extends-direct : (i : ℕ) → i < 12 → Extends sb ip d i a (set_addr i a ip) e
  Extends-direct i l = record {
    is_data = c.is_data;
    was_free = c.was_free;
    marked = c.marked;
    unmoved = c.unmoved;
    kept = λ y p h off other. c.kept y p h off;
    sized = length-set ip.addrs i a ∙ f.sized;
    here =
        slot_direct (set_addr i a ip) e i l
        ∙ get_or-set_self ip.addrs i a 0 (omega (arith, f.sized));
    others = λ n k off. elim (dec_lt n 12) [
      | yes direct ↦
          slot_direct (set_addr i a ip) e n direct
          ∙ get_or-set_ne ip.addrs i n a 0 (λ s. off (sym s))
          ∙ sym (slot_direct ip d n direct)
      | no high ↦ elim (dec_lt n 140) [
        | no last ↦
            slot_last (set_addr i a ip) e n (omega arith)
            ∙ indirect
            ∙ sym (slot_last ip d n (omega arith))
        | yes word ↦ elim (ℕ_discrete (get_or ip.addrs 12 0) 0) [
          | yes z ↦
              slot_none (set_addr i a ip) e n (omega arith) word (indirect ∙ z)
              ∙ sym (slot_none ip d n (omega arith) word z)
          | no nz ↦
              slot_word (set_addr i a ip) e n (omega arith) word (λ z. nz (sym indirect ∙ z))
              ∙ ap (λ x. word_at x (n - 12) e) indirect
              ∙ words_stay nz (n - 12) (omega arith)
              ∙ sym (slot_word ip d n (omega arith) word nz)
        ]
      ]
    ];
  }
    where
      indirect : get_or (set ip.addrs i a) 12 0 ≡ get_or ip.addrs 12 0
      indirect = get_or-set_ne ip.addrs i 12 a 0 (λ s. omega (arith, l, s))

  pub Extends-indirect : get_or ip.addrs 12 0 ≡ 0 → Extends sb ip d 140 a (set_addr 12 a ip) e
  Extends-indirect z = record {
    is_data = c.is_data;
    was_free = c.was_free;
    marked = c.marked;
    unmoved = c.unmoved;
    kept = λ y p h off other. c.kept y p h off;
    sized = length-set ip.addrs 12 a ∙ f.sized;
    here = slot_last (set_addr 12 a ip) e 140 (omega arith) ∙ indirect;
    others = λ n k off. elim (dec_lt n 12) [
      | yes direct ↦
          slot_direct (set_addr 12 a ip) e n direct
          ∙ get_or-set_ne ip.addrs 12 n a 0 (λ s. omega (arith, direct, s))
          ∙ sym (slot_direct ip d n direct)
      | no high ↦
          slot_word (set_addr 12 a ip) e n (omega arith) (omega arith)
            (λ s. some_block (sym indirect ∙ s))
          ∙ ap (λ x. word_at x (n - 12) e) indirect
          ∙ zeros (n - 12) (omega arith)
          ∙ sym (slot_none ip d n (omega arith) (omega arith) z)
    ];
  }
    where
      indirect : get_or (set ip.addrs 12 a) 12 0 ≡ a
      indirect = get_or-set_self ip.addrs 12 a 0 (omega (arith, f.sized))

      some_block : a ≢ 0
      some_block s = omega (arith, c.is_data.0, s)

      zeros : (j : ℕ) → j < 128 → word_at a j e ≡ 0
      zeros j l = word_at-same a j (λ y p. 0) e l (λ p k. c.cleared p k)

  -- `x` is the indirect block.
  pub Extends-word :
      (j : ℕ)
      → j < 128
      → get_or ip.addrs 12 0 ≢ 0
      → a < 2 ^ 32
      → Extends sb ip d (12 + j) a ip (put_word (get_or ip.addrs 12 0) (j * 4) a e)
  Extends-word j l nz small =
      let x = get_or ip.addrs 12 0 in
      let last = slot_last ip d 140 (omega arith) in
      let nz' : slot ip d 140 ≢ 0 = λ z. nz (sym last ∙ z) in
      let x_data : IsData sb x = subst (IsData sb) last (f.data_blocks 140 (omega arith) nz') in
      let bits : (b : ℕ) → b < sb.size → in_use sb b (put_word x (j * 4) a e) ≡ in_use sb b e =
        λ b s. in_use-same sb b e (put_word x (j * 4) a e) (λ p.
          put_word_away x (j * 4) a e (bitmap_block sb b) p
            (λ same. omega (arith, x_data.0, s, same))) in
      record {
        is_data = c.is_data;
        was_free = c.was_free;
        marked = bits a c.is_data.1 ∙ c.marked;
        unmoved = λ b s off. bits b s ∙ c.unmoved b s off;
        kept = λ y p h off other.
            put_word_away x (j * 4) a e y p (λ s. other (last ∙ s)) ∙ c.kept y p h off;
        sized = f.sized;
        here =
            slot_word ip (put_word x (j * 4) a e) (12 + j) (omega arith) (omega (arith, l)) nz
            ∙ ap (λ k. word_at x k (put_word x (j * 4) a e)) (back j)
            ∙ word_at-put_word_self x j a e small;
        others = λ n k off. elim (dec_lt n 12) [
          | yes direct ↦
              slot_direct ip (put_word x (j * 4) a e) n direct ∙ sym (slot_direct ip d n direct)
          | no high ↦ elim (dec_lt n 140) [
            | no end ↦
                slot_last ip (put_word x (j * 4) a e) n (omega arith)
                ∙ sym (slot_last ip d n (omega arith))
            | yes word ↦
                slot_word ip (put_word x (j * 4) a e) n (omega arith) word nz
                ∙ word_at-put_word_ne x j (n - 12) a e (λ s. off (omega (arith, s, high)))
                ∙ words_stay nz (n - 12) (omega arith)
                ∙ sym (slot_word ip d n (omega arith) word nz)
          ]
        ];
      }
    where
      back : (j : ℕ) → 12 + j - 12 ≡ j
      back j = omega arith
