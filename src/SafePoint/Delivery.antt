-- ===== src/SafePoint/Delivery.antt =====
-- What the safe-point guard delivers, and when (agent_runtime/safe_point.py).
use eyot_ai.Prelude.{
  ℕ, zero, suc, ◌+◌, ◌-◌, ◌≤◌, ◌<◌, ◌≡◌, refl, sym, ap, ◌∙◌, Bool, List, [], ◌∷◌, ◌++◌,
  append_assoc, append-nil, arith, count, true, false,
}
use eyot_ai.SafePoint.{
  SafePointGuard, Call, hold, on_tool_use, on_tool_results, flush, flushed, perform, perform_all,
}

-- the items that the calls hold, in order
abbrev pub held {ℓ} : {A : Type ℓ} → List (Call A) → List A
held [] = []
held (hold item ∷ calls) = item ∷ held calls
held (_ ∷ calls) = held calls

abbrev pub is_results {ℓ} : {A : Type ℓ} → Call A → Bool
is_results on_tool_results = true
is_results _ = false

abbrev pub is_tool_use {ℓ} : {A : Type ℓ} → Call A → Bool
is_tool_use on_tool_use = true
is_tool_use _ = false

module _ {ℓ} {A : Type ℓ} where
  -- A flush moves the pending items to the front, or nothing.
  flushed_parts :
      (n : ℕ) (items : List A)
      → let (now, g) = flushed (record { pending = items; outstanding_tool_batches = n }) in
        (now ++ g.pending ≡ items) × (g.outstanding_tool_batches ≡ n)
  unfolding flushed
  flushed_parts zero [] = (refl, refl)
  flushed_parts zero (x ∷ items) = (append-nil (x ∷ items), refl)
  flushed_parts (suc n) items = (refl, refl)

  -- Whatever the calls are, the delivered items and then the ones still pending are the items that
  -- were pending and then the held ones, in that order: none is lost, repeated or reordered.
  pub perform_all-in_order :
      (calls : List (Call A)) (g : SafePointGuard A)
      → let (delivered, g') = perform_all calls g in
        delivered ++ g'.pending ≡ g.pending ++ held calls
  unfolding perform_all perform
  perform_all-in_order [] g = sym (append-nil g.pending)
  perform_all-in_order (hold item ∷ calls) g =
      perform_all-in_order calls (record g { pending = g.pending ++ item ∷ [] })
      ∙ append_assoc g.pending (item ∷ []) (held calls)
  perform_all-in_order (on_tool_use ∷ calls) g =
      perform_all-in_order calls
        (record g { outstanding_tool_batches = g.outstanding_tool_batches + 1 })
  perform_all-in_order (on_tool_results ∷ calls) g =
      perform_all-in_order calls
        (record g { outstanding_tool_batches = g.outstanding_tool_batches - 1 })
  perform_all-in_order (flush ∷ calls) g =
      let g' = (flushed g).1 in
      append_assoc (flushed g).0 (perform_all calls g').0 (perform_all calls g').1.pending
      ∙ ap (λ l. (flushed g).0 ++ l) (perform_all-in_order calls g')
      ∙ sym (append_assoc (flushed g).0 g'.pending (held calls))
      ∙ ap (λ l. l ++ held calls) (flushed_parts g.outstanding_tool_batches g.pending).0

  flushed_held_back :
      (n : ℕ) (items : List A)
      → 0 < n
      → let g : SafePointGuard A = record { pending = items; outstanding_tool_batches = n } in
        flushed g ≡ ([], g)
  unfolding flushed
  flushed_held_back zero items busy = absurd (omega arith)
  flushed_held_back (suc n) items busy = refl

  -- Between a tool_use and its tool results nothing is delivered: calls that complete fewer batches
  -- than are outstanding, whatever they hold, start and flush, deliver no item.
  pub perform_all-no_split :
      (calls : List (Call A)) (g : SafePointGuard A)
      → count is_results calls < g.outstanding_tool_batches
      → (perform_all calls g).0 ≡ []
  unfolding perform_all perform
  perform_all-no_split [] g busy = refl
  perform_all-no_split (hold item ∷ calls) g busy =
      perform_all-no_split calls (record g { pending = g.pending ++ item ∷ [] }) (omega arith)
  perform_all-no_split (on_tool_use ∷ calls) g busy =
      perform_all-no_split calls
        (record g { outstanding_tool_batches = g.outstanding_tool_batches + 1 }) (omega arith)
  perform_all-no_split (on_tool_results ∷ calls) g busy =
      perform_all-no_split calls
        (record g { outstanding_tool_batches = g.outstanding_tool_batches - 1 }) (omega arith)
  perform_all-no_split (flush ∷ calls) g busy =
      rw (flushed_held_back g.outstanding_tool_batches g.pending (omega arith))
        (perform_all-no_split calls g (omega arith))

  flushed_released :
      (n : ℕ) (items : List A)
      → n ≡ 0
      → (flushed (record { pending = items; outstanding_tool_batches = n })).1.pending ≡ []
  unfolding flushed
  flushed_released zero [] idle = refl
  flushed_released zero (x ∷ items) idle = refl
  flushed_released (suc n) items idle = absurd (omega arith)

  -- Once as many batches are completed as are outstanding, and none is started in between, a flush
  -- leaves no item pending.
  pub perform_all-releases :
      (calls : List (Call A)) (g : SafePointGuard A)
      → count is_tool_use calls ≡ 0
      → g.outstanding_tool_batches ≤ count is_results calls
      → (perform_all (calls ++ flush ∷ []) g).1.pending ≡ []
  unfolding perform_all perform
  perform_all-releases [] g unused done =
      flushed_released g.outstanding_tool_batches g.pending (omega arith)
  perform_all-releases (hold item ∷ calls) g unused done =
      perform_all-releases calls (record g { pending = g.pending ++ item ∷ [] }) unused done
  perform_all-releases (on_tool_use ∷ calls) g unused done = absurd (omega arith)
  perform_all-releases (on_tool_results ∷ calls) g unused done =
      perform_all-releases calls
        (record g { outstanding_tool_batches = g.outstanding_tool_batches - 1 }) unused
        (omega arith)
  perform_all-releases (flush ∷ calls) g unused done =
      perform_all-releases calls (flushed g).1 unused
        (omega (arith, (flushed_parts g.outstanding_tool_batches g.pending).1))
