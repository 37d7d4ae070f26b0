-- ===== src/VaultClient/Paging.antt =====
-- Every page is fetched, whichever way Vault pages.
use mathlib.Core.List.{append-nil, append_assoc, Permᴰ}
use mathlib.Core.List.Permᴰ
use simply_ip_exporter.Prelude.{
  ℕ, zero, suc, ◌+◌, ◌-◌, ◌*◌, ◌<◌, ◌≤◌, ◌≡◌, ◌⊎◌, inl, inr, refl, ap, sym, subst, ◌∙◌, true, false,
  Option, List, [], ◌∷◌, ◌++◌, arith, length, min, ltb, ltb→lt, take, drop, take-append-drop,
  length-take, drop-drop, take-append-take, take_of_length-le, drop_of_length-le, Bool-cases, ◌==◌,
}
use simply_ip_exporter.Prelude.Result.{ok, err}
use simply_ip_exporter.Prelude.Text.{Text}
use simply_ip_exporter.VaultClient.{
  VaultApiRecord, Vault, envelope, legacy, status, page_at, fetch_pages, offsets_from,
  fetch_remaining_pages_in_parallel, sequential_loop, fetch_sequentially, fetch_ips, max_pages,
  fetch_first,
}

exchange : (x y l : List VaultApiRecord) → Permᴰ (x ++ (y ++ l)) (y ++ (x ++ l))
exchange x y l =
    subst (λ w. Permᴰ w (y ++ (x ++ l))) (append_assoc x y l)
      (subst (Permᴰ ((x ++ y) ++ l)) (append_assoc y x l)
        (Permᴰ.append_right l (Permᴰ.append_comm x y)))

module _ (answer : Vault) (size : ℕ) (groups : Text) (since : Option ℕ)
    (all : List VaultApiRecord) where
  -- A plain page request is answered by the slice of the listing that it asks for.
  abbrev pub HonoursOffsets : Type 0
  HonoursOffsets =
      (offset : ℕ) → page_at answer size groups since offset ≡ ok (take size (drop offset all))

  -- The probe is answered by the first page with a page count that covers the listing, by the
  -- bare first page, or by a 400.
  abbrev pub AnswersProbe : Type 0
  AnswersProbe =
      let probe = answer (record {
        groups = groups;
        since = since;
        include_total = true;
        limit = size;
        offset = 0;
      }) in
      ((n : ℕ) × (probe ≡ ok (envelope (record { records = take size all; total_pages = n })))
        × (length all ≤ n * size)
        × (n ≤ max_pages))
      ⊎ (probe ≡ ok (legacy (take size all)))
      ⊎ (probe ≡ err (status 400))

  abbrev slice : ℕ → List VaultApiRecord
  slice offset = take size (drop offset all)

  slices : List ℕ → List VaultApiRecord
  slices [] = []
  slices (offset ∷ offsets) = slice offset ++ slices offsets

  -- Pages in another order are the same records in another order.
  slices-Permᴰ : {a b : List ℕ} → Permᴰ a b → Permᴰ (slices a) (slices b)
  unfolding slices
  slices-Permᴰ Permᴰ.nil = Permᴰ.nil
  slices-Permᴰ (Permᴰ.cons {a = a} {b = b} {l₁ = l₁} {l₂ = l₂} e π) =
      subst (λ x. Permᴰ (slice a ++ slices l₁) (slice x ++ slices l₂)) e
        (Permᴰ.append_left (slice a) (slices-Permᴰ π))
  slices-Permᴰ (Permᴰ.swap {a = a} {b = b} {a' = a'} {b' = b'} {l = l} e₁ e₂) =
      subst (λ x. Permᴰ (slice a ++ (slice b ++ slices l)) (slice a' ++ (slice x ++ slices l))) e₁
        (subst (λ x. Permᴰ (slice a ++ (slice b ++ slices l)) (slice x ++ (slice a ++ slices l))) e₂
          (exchange (slice a) (slice b) (slices l)))
  slices-Permᴰ (Permᴰ.trans π ρ) = Permᴰ.trans (slices-Permᴰ π) (slices-Permᴰ ρ)

  slices-offsets_from :
      (n page : ℕ)
      → slices (offsets_from answer size groups since n page)
        ≡ take (n * size) (drop (page * size) all)
  unfolding slices offsets_from
  slices-offsets_from zero page = let e : 0 * size ≡ 0 = omega arith in rw e
  slices-offsets_from (suc n) page = rw (slices-offsets_from n (page + 1)) (
      ap (λ rest. take size (drop (page * size) all) ++ take (n * size) rest)
        (sym (drop-drop (page * size) size ((page + 1) * size) all (omega arith)))
      ∙ take-append-take size (n * size) (suc n * size) (drop (page * size) all) (omega arith))

  module _ (honours : HonoursOffsets) where
    fetch_pages_lem :
        (offsets : List ℕ) → fetch_pages answer size groups since offsets ≡ ok (slices offsets)
    unfolding fetch_pages slices
    fetch_pages_lem [] = refl
    fetch_pages_lem (offset ∷ offsets) = rw (honours offset, fetch_pages_lem offsets)

    glue :
        (offset : ℕ) (done : List VaultApiRecord)
        → (done ++ take size (drop offset all)) ++ drop (offset + size) all
          ≡ done ++ drop offset all
    glue offset done =
        append_assoc done _ _
        ∙ ap (◌++◌ done) (
            ap (◌++◌ (take size (drop offset all)))
              (sym (drop-drop offset size (offset + size) all refl))
            ∙ take-append-drop size (drop offset all))

    -- Enough turns left for the rest of the listing: all of it is read.
    sequential_loop_lem :
        (left offset : ℕ) (done : List VaultApiRecord)
        → length all ≤ offset + left * size
        → sequential_loop answer size groups since left offset done ≡ ok (done ++ drop offset all)
    unfolding sequential_loop
    sequential_loop_lem zero offset done h =
        rw (drop_of_length-le offset all (omega arith)) (rw append-nil)
    sequential_loop_lem (suc left) offset done h =
        rw (honours offset, sequential_loop)
          (elim (Bool-cases (ltb (length (take size (drop offset all))) size)) [
            | inl short ↦
                rw (short, sequential_loop)
                  (ap (λ page. ok (done ++ page))
                    (take_of_length-le size (drop offset all) (
                      omega (
                        arith,
                        length-take size (drop offset all),
                        ltb→lt (length (take size (drop offset all))) size short,
                      ))))
            | inr full ↦
                rw (full, sequential_loop)
                  (sequential_loop_lem left (offset + size) (done ++ take size (drop offset all))
                      (omega arith)
                    ∙ ap ok (glue offset done))
          ])

    module _ (positive : 0 < size) (fits : length all ≤ max_pages * size) where
      fetch_sequentially_nil : fetch_sequentially answer size groups since [] ≡ ok all
      unfolding fetch_sequentially
      fetch_sequentially_nil =
          let e : (0 == size) ≡ false = ground arith in
          rw e (sequential_loop_lem max_pages 0 [] (omega arith))

      fetch_sequentially_full :
          (first : List VaultApiRecord)
          → first ≡ take size all
          → (length first == size) ≡ true
          → fetch_sequentially answer size groups since first ≡ ok all
      unfolding fetch_sequentially
      fetch_sequentially_full [] e full = absurd (ground arith)
      fetch_sequentially_full (r ∷ rs) e full = rw full (
          sequential_loop_lem (max_pages - 1) size (r ∷ rs) (omega arith)
          ∙ ap ok (ap (λ p. p ++ drop size all) e ∙ take-append-drop size all))

      fetch_sequentially_short :
          (first : List VaultApiRecord)
          → first ≡ all
          → (length first == size) ≡ false
          → fetch_sequentially answer size groups since first ≡ ok all
      unfolding fetch_sequentially
      fetch_sequentially_short [] e short =
          rw short (sequential_loop_lem max_pages 0 [] (omega arith))
      fetch_sequentially_short (r ∷ rs) e short = rw short (ap ok e)

      fetch_sequentially_first :
          fetch_sequentially answer size groups since (take size all) ≡ ok all
      fetch_sequentially_first = elim (Bool-cases (length (take size all) == size)) [
        | inl full ↦ fetch_sequentially_full (take size all) refl full
        | inr short ↦
            fetch_sequentially_short (take size all)
              (take_of_length-le size all (ground (arith, length-take size all))) short
      ]

      pages_cover :
          (n : ℕ)
          → length all ≤ n * size
          → n ≤ max_pages
          → take size all ++ take (min (n - 1) (max_pages - 1) * size) (drop (1 * size) all) ≡ all
      pages_cover zero covers few =
          let e : min (0 - 1) (max_pages - 1) * size ≡ 0 = omega arith in
          rw e (rw append-nil (take_of_length-le size all (omega arith)))
      pages_cover (suc k) covers few =
          let e : min (suc k - 1) (max_pages - 1) ≡ k = omega arith in
          let e' : 1 * size ≡ size = omega arith in
          rw (e, e')
            (take-append-take size (k * size) (size + k * size) all refl
              ∙ take_of_length-le (size + k * size) all (omega arith))

      module _ (arrival : List ℕ → List ℕ)
          (arrives : (offsets : List ℕ) → Permᴰ (arrival offsets) offsets) where
        -- The fetch returns the whole listing: in order where Vault reports no page count, and
        -- otherwise in the order in which its pages arrive.
        abbrev pub IsComplete : AnswersProbe → Type 0
        IsComplete (inl counted) =
            (records : List VaultApiRecord) × (fetch_ips answer size groups since arrival
              ≡ ok records)
            × Permᴰ records all
        IsComplete (inr bare) = fetch_ips answer size groups since arrival ≡ ok all

        in_parallel :
            (n : ℕ)
            → length all ≤ n * size
            → n ≤ max_pages
            → (records : List VaultApiRecord) × (fetch_remaining_pages_in_parallel answer size
                  groups since arrival
                  (record { records = take size all; total_pages = n })
                ≡ ok records)
              × Permᴰ records all
        unfolding fetch_remaining_pages_in_parallel
        in_parallel n covers few =
            let offsets = offsets_from answer size groups since (min (n - 1) (max_pages - 1)) 1 in
            let e : take size all ++ slices offsets ≡ all =
              ap (◌++◌ (take size all)) (slices-offsets_from (min (n - 1) (max_pages - 1)) 1)
              ∙ pages_cover n covers few in
            (
              take size all ++ slices (arrival offsets),
              rw (fetch_pages_lem (arrival offsets)),
              subst (Permᴰ (take size all ++ slices (arrival offsets))) e
                  (Permᴰ.append_left (take size all) (slices-Permᴰ (arrives offsets))),
            )

        -- Take a listing of at most `max_pages` pages and a Vault that honours `offset` and answers
        -- the probe in one of its three ways: with a page count, with the bare first page, or by
        -- refusing `include_total` with 400. Then the fetch returns each record of the listing as
        -- often as it stands there: in order in the last two ways, and, whatever the order in which
        -- the concurrent pages arrive, in some order in the first.
        pub fetch_ips-IsComplete : (probe : AnswersProbe) → IsComplete probe
        unfolding fetch_ips
        fetch_ips-IsComplete (inl (n, probe, covers, few)) =
            let (records, e, same) = in_parallel n covers few in
            (records, rw (probe, fetch_first) e, same)
        fetch_ips-IsComplete (inr (inl probe)) = rw (probe, fetch_first) fetch_sequentially_first
        fetch_ips-IsComplete (inr (inr probe)) = rw (probe, fetch_first) fetch_sequentially_nil
