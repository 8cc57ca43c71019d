-- ===== src/Pmm/Partition.antt =====
-- kernel/mm/pmm.c: the pages outside a hole are divided into blocks, each known by its first page. The hole
-- is what a call has taken out of the blocks and not yet put back.
use native.Mathlib.Decide.{ℕ_discrete}
use gnu_os.Base.{
  ℕ, ◌+◌, ◌-◌, ◌≤◌, ◌<◌, ◌≡◌, ◌≢◌, refl, sym, ◌∙◌, subst, ◌⊎◌, inl, inr, Bool, true, false, not,
  Bool-cases, ◌&&◌, ◌||◌, ◌==◌, ==_refl, if◌then◌else◌, arith,
}
use gnu_os.Pmm.{max_pages, max_order, BlockState, unused, update, is_free, block_pages}
use gnu_os.Pmm.Buddies.{block_pages-positive}
use gnu_os.Pmm.Counts.{within}

abbrev pub is_used : BlockState → Bool
is_used unused = false
is_used _ = true

abbrev pub is_head : (hole : ℕ → Bool) (state : ℕ → BlockState) → ℕ → Bool
is_head hole state h = not (hole h) && is_used (state h)

-- In the hole only page `x` may have a state. The blocks that are not free are pages.
pub record Partition (hole : ℕ → Bool) (x total : ℕ) (owner order : ℕ → ℕ)
    (state status : ℕ → BlockState) : Type 0 where
  pub bound : total ≤ max_pages
  pub inside : (p : ℕ) → hole p ≡ true → p < total
  pub empty : (p : ℕ) → hole p ≡ true → p ≢ x → is_used (state p) ≡ false
  pub small : (h : ℕ) → is_head hole state h ≡ true → order h ≤ max_order
  pub single : (h : ℕ) → is_head hole state h ≡ true → is_free (state h) ≡ false → order h ≡ 0
  pub fits : (h : ℕ) → is_head hole state h ≡ true → h + block_pages (order h) ≤ total
  pub owned :
      (h p : ℕ)
      → is_head hole state h ≡ true
      → within h (block_pages (order h)) p ≡ true
      → (owner p ≡ h) × (hole p ≡ false)
  pub covered :
      (p : ℕ)
      → p < total
      → hole p ≡ false
      → (is_head hole state (owner p) ≡ true)
        × (within (owner p) (block_pages (order (owner p))) p ≡ true)
  pub stands : (p : ℕ) → p < total → hole p ≡ false → state (owner p) ≡ status p

pub within_self : (q k : ℕ) → within q (block_pages k) q ≡ true
within_self q k = ground (arith, block_pages-positive k)

-- A block inside the hole ends below the number of pages.
pub covered_fits :
    (hole : ℕ → Bool) (total start k : ℕ)
    → ((p : ℕ) → hole p ≡ true → p < total)
    → ((p : ℕ) → within start (block_pages k) p ≡ true → hole p ≡ true)
    → start + block_pages k ≤ total
covered_fits hole total start k inside covers =
    let last : within start (block_pages k) (start + block_pages k - 1) ≡ true =
      ground (arith, block_pages-positive k) in
    omega (
      arith,
      inside (start + block_pages k - 1) (covers (start + block_pages k - 1) last),
      block_pages-positive k,
    )

module _ (hole : ℕ → Bool) (x total : ℕ) (owner order : ℕ → ℕ) (state status : ℕ → BlockState)
    (v : Partition hole x total owner order state status) where
  -- A page outside the hole that lies in the block of `h` is owned by `h`.
  pub owner_in_block :
      (h p : ℕ)
      → is_head hole state h ≡ true
      → within h (block_pages (order h)) p ≡ true
      → is_head hole state p ≡ true
      → p ≡ h
  owner_in_block h p first w other =
      sym (v.owned p p other (within_self p (order p))).0 ∙ (v.owned h p first w).0

  pub head_free : (h : ℕ) → is_head hole state h ≡ true → hole h ≡ false
  head_free h first = (v.owned h h first (within_self h (order h))).1

module _ (hole hole' : ℕ → Bool) (x total : ℕ) (owner order : ℕ → ℕ) (state status : ℕ → BlockState)
    (h : ℕ) where
  -- The block with first page `h` joins the hole.
  pub open_block :
      Partition hole x total owner order state status
      → is_head hole state h ≡ true
      → ((p : ℕ) → hole' p ≡ (hole p || within h (block_pages (order h)) p))
      → Partition hole' x total owner (update order h 0) (update state h unused) status
  open_block v first grown = record {
    bound = v.bound;
    inside = λ p q. elim (Bool-cases (hole p)) [
      | inl e ↦ v.inside p e
      | inr e ↦ ground (arith, v.fits h first, grown p)
    ];
    empty = λ p q ne. elim (ℕ_discrete p h) [
      | yes same ↦ ground arith
      | no apart ↦ elim (Bool-cases (hole p)) [
        | inl e ↦ ground (arith, v.empty p e ne)
        | inr e ↦ elim (Bool-cases (is_used (state p))) [
          | inl used ↦ absurd (
              apart (
                owner_in_block hole x total owner order state status v h p first
                  (ground (arith, grown p)) (ground arith)))
          | inr clear ↦ ground arith
        ]
      ]
    ];
    small = λ h' q. let (ne, l) = kept h' q in ground (arith, v.small h' l);
    single = λ h' q held.
        let (ne, l) = kept h' q in rw (apart h' ne) (v.single h' l (rw (apart h' ne) at held));
    fits = λ h' q. let (ne, l) = kept h' q in rw (apart h' ne) (v.fits h' l);
    owned = λ h' p q w.
        let (ne, l) = kept h' q in
        let (o, out) = v.owned h' p l (rw (apart h' ne) at w) in
        (
          o,
          elim (Bool-cases (within h (block_pages (order h)) p)) [
            | inl i ↦ absurd (ne (sym o ∙ (v.owned h p first i).0))
            | inr i ↦ ground (arith, grown p)
          ],
        );
    covered = λ p l q.
        let (out, ne) = elsewhere p l q in
        let (o, w) = v.covered p l out in
        (
          elim (Bool-cases (within h (block_pages (order h)) (owner p))) [
            | inl i ↦
                absurd (
                  ne (owner_in_block hole x total owner order state status v h (owner p) first i o))
            | inr i ↦ rw (grown (owner p), apart (owner p) ne, i) (ground arith)
          ],
          rw (apart (owner p) ne) w,
        );
    stands = λ p l q. let (out, ne) = elsewhere p l q in rw (apart (owner p) ne) (v.stands p l out);
  }
    where
      apart : (h' : ℕ) → h' ≢ h → (h' == h) ≡ false
      apart h' ne = ground arith

      kept :
          (h' : ℕ)
          → is_head hole' (update state h unused) h' ≡ true
          → (h' ≢ h) × (is_head hole state h' ≡ true)
      kept h' q = elim (ℕ_discrete h' h) [
        | yes same ↦ absurd (ground arith)
        | no ne ↦ (ne, ground (arith, grown h'))
      ]

      elsewhere : (p : ℕ) → p < total → hole' p ≡ false → (hole p ≡ false) × (owner p ≢ h)
      elsewhere p l q =
          let out : hole p ≡ false = ground (arith, grown p) in
          let out_block : within h (block_pages (order h)) p ≡ false = ground (arith, grown p) in
          (
            out,
            λ e. absurd (
                ground (
                  arith,
                  subst (λ k. within k (block_pages (order k)) p ≡ true) e (v.covered p l out).1,
                  out_block,
                )),
          )

module _ (hole hole' : ℕ → Bool) (x y total : ℕ) (owner owner' order : ℕ → ℕ)
    (state status status' : ℕ → BlockState) (start k : ℕ) (st : BlockState) where
  -- The block of order `k` with first page `start` leaves the hole, with state `st`.
  pub close_block :
      Partition hole x total owner order state status
      → is_used st ≡ true
      → k ≤ max_order
      → (is_free st ≡ false → k ≡ 0)
      → ((p : ℕ) → within start (block_pages k) p ≡ true → hole p ≡ true)
      → ((p : ℕ) → hole' p ≡ (hole p && not (within start (block_pages k) p)))
      → ((p : ℕ) → hole p ≡ true → p ≢ start → (hole' p ≡ true → p ≢ y) → p ≢ x)
      → ((p : ℕ) → owner' p ≡ (if within start (block_pages k) p then start else owner p))
      → ((p : ℕ) → status' p ≡ (if within start (block_pages k) p then st else status p))
      → Partition hole' y total owner' (update order start k) (update state start st) status'
  close_block v used low page covers shrunk exempt owns says = record {
    bound = v.bound;
    inside = λ p q. v.inside p (ground (arith, shrunk p));
    empty = λ p q ne.
        let (out, apart) = still p q in
        rw (skip p apart) (v.empty p out (exempt p out apart (λ s. ne)));
    small = λ h q. elim (heads h q) [
      | inl same ↦ ground arith
      | inr (ne, l) ↦ rw (skip h ne) (v.small h l)
    ];
    single = λ h q held. elim (heads h q) [
      | inl same ↦ rw (same, ==_refl start) (page (rw (same, ==_refl start) at held))
      | inr (ne, l) ↦ rw (skip h ne) (v.single h l (rw (skip h ne) at held))
    ];
    fits = λ h q. elim (heads h q) [
      | inl same ↦ rw (same, ==_refl start) ends
      | inr (ne, l) ↦ rw (skip h ne) (v.fits h l)
    ];
    owned = λ h p q w. elim (heads h q) [
      | inl same ↦
          let here : within start (block_pages k) p ≡ true = rw (same, ==_refl start) at w in
          (owns p ∙ rw here (sym same), ground (arith, shrunk p, here))
      | inr (ne, l) ↦
          let (o, out) = v.owned h p l (rw (skip h ne) at w) in
          (owns p ∙ rw (beyond p out) o, ground (arith, shrunk p, out))
    ];
    covered = λ p l q. elim (Bool-cases (within start (block_pages k) p)) [
      | inl here ↦
          let mine : owner' p ≡ start = owns p ∙ rw here refl in
          rw (mine, ==_refl start) (ground (arith, shrunk start, within_self start k, used), here)
      | inr away ↦
          let out : hole p ≡ false = ground (arith, shrunk p) in
          let (o, w) = v.covered p l out in
          let mine : owner' p ≡ owner p = owns p ∙ rw away refl in
          let open_not : hole (owner p) ≡ false =
            head_free hole x total owner order state status v (owner p) o in
          rw (mine, skip (owner p) (other (owner p) open_not))
            (ground (arith, shrunk (owner p), open_not, o), w)
    ];
    stands = λ p l q. elim (Bool-cases (within start (block_pages k) p)) [
      | inl here ↦ rw (owns p, says p, here, ==_refl start) refl
      | inr away ↦
          let out : hole p ≡ false = ground (arith, shrunk p) in
          let (o, w) = v.covered p l out in
          let open_not : hole (owner p) ≡ false =
            head_free hole x total owner order state status v (owner p) o in
          rw (owns p, says p, away, skip (owner p) (other (owner p) open_not)) (v.stands p l out)
    ];
  }
    where
      skip : (h : ℕ) → h ≢ start → (h == start) ≡ false
      skip h ne = ground arith

      still : (p : ℕ) → hole' p ≡ true → (hole p ≡ true) × (p ≢ start)
      still p q = (
        ground (arith, shrunk p),
        λ e. absurd (ground (arith, shrunk p, e, block_pages-positive k)),
      )

      heads :
          (h : ℕ)
          → is_head hole' (update state start st) h ≡ true
          → (h ≡ start) ⊎ ((h ≢ start) × (is_head hole state h ≡ true))
      heads h q = elim (ℕ_discrete h start) [
        | yes same ↦ inl same
        | no ne ↦ elim (Bool-cases (hole h)) [
          | inl e ↦
              let gone : hole' h ≡ false = ground arith in
              let clear : is_used (state h) ≡ false =
                v.empty h e (exempt h e ne (λ s. absurd (ground (arith, s, gone)))) in
              absurd (ground arith)
          | inr e ↦ inr (ne, ground arith)
        ]
      ]

      beyond : (p : ℕ) → hole p ≡ false → within start (block_pages k) p ≡ false
      beyond p out = elim (Bool-cases (within start (block_pages k) p)) [
        | inl e ↦ absurd (ground (arith, covers p e, out))
        | inr e ↦ e
      ]

      other : (p : ℕ) → hole p ≡ false → p ≢ start
      other p out e = absurd (ground (arith, beyond p out, e, within_self start k))

      ends : start + block_pages k ≤ total
      ends = covered_fits hole total start k v.inside covers
