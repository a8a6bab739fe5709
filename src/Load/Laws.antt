-- ===== src/Load/Laws.antt =====
-- The results of load/cli/main.go: which the load test keeps, and what its report is about.
use pr_reviewer_service.Prelude.{
  ℕ, suc, zero, ◌+◌, ◌<◌, ◌≤◌, ◌≡◌, refl, sym, ap, ◌∙◌, Bool, true, false, Option, none, some, List,
  [], ◌∷◌, ◌++◌, ◌⊎◌, inl, inr, length, take, arith, Bool-cases, if◌then◌else◌, ℤ, is_positive,
}
use mathlib.Core.List.{append-nil, append_assoc}
use pr_reviewer_service.Load.{
  LoadError, Decoded, Codec, result, eof, bad, Read, all_read, bad_read, Disk, collect, write_from,
  reported, save_results, run_load_test, read_next, read_results, rendered, report_of,
  report_failed, render_report,
}

module _ {R E D : Type 0} (code : R → ℕ) (c : Codec R E D) where
  -- The bytes of the results, from an encoder.
  abbrev pub encoded : E → List R → List ℕ
  encoded x [] = []
  encoded x (r ∷ rs) = (c.encode x r).0 ++ encoded (c.encode x r).1 rs

  -- The loop has come to the end of the file, or to bytes that are no result.
  abbrev pub Ended : Read R → Type 0
  Ended x = ((rs : List R) × (x ≡ all_read rs)) ⊎ (x ≡ bad_read)

  module _
      (shrinks : (y : D) (bytes : List ℕ) (r : R) (rest : List ℕ) (y' : D)
        → c.decode y bytes ≡ result r rest y'
        → length rest < length bytes) where
    -- The loop of the report comes to an end on any file.
    pub read_results-ends :
        (n : ℕ) (y : D) (bytes : List ℕ) (rs : List R)
        → length bytes < n
        → Ended (read_results code c n y bytes rs)
    unfolding read_results
    read_results-ends zero y bytes rs h = absurd (omega (arith, h))
    read_results-ends (suc n) y bytes rs h = step (c.decode y bytes) refl λ r rest y' e.
        read_results-ends n y' rest (rs ++ r ∷ []) (omega (arith, shrinks y bytes r rest y' e, h))
      where
        step :
            (x : Decoded R D)
            → c.decode y bytes ≡ x
            → ((r : R) (rest : List ℕ) (y' : D)
                → c.decode y bytes ≡ result r rest y'
                → Ended (read_results code c n y' rest (rs ++ r ∷ [])))
            → Ended
                (read_next code c x rs λ r rest y'. read_results code c n y' rest (rs ++ r ∷ []))
        step (result r rest y') e k = k r rest y' e
        step eof e k = inl (rs, refl)
        step bad e k = inr refl

  module _ (InStep : E → D → Type 0)
      (decode-encode : (x : E) (y : D)
        → InStep x y
        → (r : R) (rest : List ℕ)
        → (y' : D) × (c.decode y ((c.encode x r).0 ++ rest) ≡ result r rest y')
          × InStep (c.encode x r).1 y')
      (decode-end : (y : D) → c.decode y [] ≡ eof) where
    abbrev onward : ℕ → List R → R → List ℕ → D → Read R
    onward n out r rest y = read_results code c n y rest (out ++ r ∷ [])

    read_results-encoded :
        (n : ℕ) (x : E) (y : D) (rs out : List R)
        → InStep x y
        → length rs < n
        → read_results code c n y (encoded x rs) out ≡ all_read (out ++ rs)
    unfolding read_results
    read_results-encoded zero x y rs out k h = absurd (omega (arith, h))
    read_results-encoded (suc n) x y [] out k h =
        ap (λ a. read_next code c a out (onward n out)) (decode-end y)
        ∙ ap all_read (sym (append-nil out))
    read_results-encoded (suc n) x y (r ∷ rs) out k h =
        let x' = (c.encode x r).1 in
        let (y', read, k') = decode-encode x y k r (encoded x' rs) in
        ap (λ a. read_next code c a out (onward n out)) read
        ∙ read_results-encoded n x' y' rs (out ++ r ∷ []) k' (omega (arith, h))
        ∙ ap all_read (append_assoc out (r ∷ []) rs)

  write_from-encoded :
      (d : Disk) (n : ℕ) (x : E) (rs : List R) (bytes : List ℕ)
      → (write_from code c d n x rs bytes).0 ≡ none
      → (write_from code c d n x rs bytes).1 ≡ bytes ++ encoded x rs
  unfolding write_from
  write_from-encoded d n x [] bytes h = sym (append-nil bytes)
  write_from-encoded d n x (r ∷ rs) bytes h = elim (Bool-cases (d.write n)) [
    | inl e ↦
        let (out, x') = c.encode x r in
        rw e (
          write_from-encoded d (suc n) x' rs (bytes ++ out) (rw e at h)
          ∙ append_assoc bytes out (encoded x' rs))
    | inr e ↦ absurd (ground (arith, rw e at h))
  ]

  -- What `saveResults` leaves where it returns no error.
  save_results-encoded :
      (d : Disk) (rs : List R)
      → (save_results code c d rs).0 ≡ none
      → ((save_results code c d rs).1.results_file ≡ some (encoded c.new_encoder rs))
        × ((save_results code c d rs).1.out ≡ d.out)
  unfolding save_results
  save_results-encoded d rs h = elim (Bool-cases d.mkdir_all) [
    | inr e ↦ absurd (ground (arith, rw e at h))
    | inl e ↦ elim (Bool-cases d.create) [
      | inr k ↦ absurd (ground (arith, rw (e, k) at h))
      | inl k ↦
          simp (e, k)
            (ap some (write_from-encoded d 0 c.new_encoder rs [] (simp (e, k) at h)), refl)
    ]
  ]

  reported-none :
      (d : Disk) (x : Option LoadError × Disk)
      → (reported code c d x).0 ≡ none
      → (x.0 ≡ none) × (d.out ≡ true) × ((reported code c d x).1 ≡ x.1)
  reported-none d (some e, d') h = absurd (ground (arith, h))
  reported-none d (none, d') h = elim (Bool-cases d.out) [
    | inl e ↦ (refl, e, refl)
    | inr e ↦ absurd (ground (arith, rw e at h))
  ]

  module _ (expired : ℕ → Bool) (final : (m : ℕ) → expired m ≡ true → expired (suc m) ≡ true) where
    collect-expired : (n : ℕ) (rs : List R) → expired n ≡ true → collect code c expired n rs ≡ []
    unfolding collect
    collect-expired n [] h = refl
    collect-expired n (r ∷ rs) h = rw h (collect-expired (suc n) rs (final n h))

    -- What is kept from result `n` on: the first `k`, up to where the context is done.
    abbrev pub KeepsFrom : ℕ → List R → ℕ → Type 0
    KeepsFrom n rs k =
        (collect code c expired n rs ≡ take k rs)
        × ((j : ℕ) → j < k → expired (n + j) ≡ false)
        × (k < length rs → expired (n + k) ≡ true)

    -- Where a context that is done stays done, the results that the loop collects are the first ones
    -- that the attack sends, up to the one that finds the context done.
    pub collect-KeepsFrom : (n : ℕ) (rs : List R) → (k : ℕ) × KeepsFrom n rs k
    unfolding collect
    collect-KeepsFrom n [] =
        (0, (refl, λ j h. absurd (omega (arith, h)), λ h. absurd (omega (arith, h))))
    collect-KeepsFrom n (r ∷ rs) = elim (Bool-cases (expired n)) [
      | inl e ↦
          let here : expired (n + 0) ≡ true = ap expired (omega arith) ∙ e in
          (0, (collect-expired n (r ∷ rs) e, λ j h. absurd (omega (arith, h)), λ h. here))
      | inr e ↦
          let (k, kept) = collect-KeepsFrom (suc n) rs in
          let (same, before, ended) = kept in
          (
            suc k,
            (
              rw (e, same) refl,
              earlier n k e before,
              λ h. ap expired (omega arith) ∙ ended (omega (arith, h)),
            ),
          )
    ]
      where
        earlier :
            (n k : ℕ)
            → expired n ≡ false
            → ((j : ℕ) → j < k → expired (suc n + j) ≡ false)
            → (j : ℕ) → j < suc k
            → expired (n + j) ≡ false
        earlier n k e before zero h = ap expired (omega arith) ∙ e
        earlier n k e before (suc j) h = ap expired (omega arith) ∙ before j (omega (arith, h))

  module _
      (shrinks : (y : D) (bytes : List ℕ) (r : R) (rest : List ℕ) (y' : D)
        → c.decode y bytes ≡ result r rest y'
        → length rest < length bytes)
      (InStep : E → D → Type 0)
      (decode-encode : (x : E) (y : D)
        → InStep x y
        → (r : R) (rest : List ℕ)
        → (y' : D) × (c.decode y ((c.encode x r).0 ++ rest) ≡ result r rest y')
          × InStep (c.encode x r).1 y')
      (decode-end : (y : D) → c.decode y [] ≡ eof)
      (decode-start : InStep c.new_encoder c.new_decoder) where
    length-encoded : (x : E) (y : D) (rs : List R) → InStep x y → length rs ≤ length (encoded x rs)
    length-encoded x y [] k = omega arith
    length-encoded x y (r ∷ rs) k =
        let x' = (c.encode x r).1 in
        let (y', read, k') = decode-encode x y k r (encoded x' rs) in
        omega (arith, length-encoded x' y' rs k', shrinks y _ r (encoded x' rs) y' read)

    render_report-encoded :
        (d : Disk) (rs : List R)
        → d.results_file ≡ some (encoded c.new_encoder rs)
        → d.out ≡ true
        → render_report code c d ≡ inr rs
    unfolding render_report
    render_report-encoded d rs file_is out_is =
        ap (report_of code c d) file_is
        ∙ ap (rendered code c d) (
            read_results-encoded InStep decode-encode decode-end
              (suc (length (encoded c.new_encoder rs))) c.new_encoder c.new_decoder rs []
              decode-start
              (omega (arith, length-encoded c.new_encoder c.new_decoder rs decode-start)))
        ∙ ap (λ b. if b then inr rs else inl report_failed) out_is

    -- Where the load test returns no error, the report of the file that it leaves is about
    -- the results that it has collected, all of them and in their order.
    pub run_load_test-render_report :
        (rate : ℤ) (expired : ℕ → Bool) (results : List R) (d : Disk)
        → (run_load_test code c rate expired results d).0 ≡ none
        → render_report code c (run_load_test code c rate expired results d).1
          ≡ inr (collect code c expired 0 results)
    unfolding run_load_test
    run_load_test-render_report rate expired results d h = elim (Bool-cases (is_positive rate)) [
      | inr e ↦ absurd (ground (arith, rw e at h))
      | inl e ↦
          let rs = collect code c expired 0 results in
          let (saved, out_is, same) = reported-none d (save_results code c d rs) (rw e at h) in
          let (file_is, out_same) = save_results-encoded d rs saved in
          rw (e, same)
            (render_report-encoded (save_results code c d rs).1 rs file_is (out_same ∙ out_is))
    ]
