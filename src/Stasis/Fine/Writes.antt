-- ===== src/Stasis/Fine/Writes.antt =====
-- app/ari/stasis.py: the writes of the coroutines, as moves.
use number_masking_service.Prelude.{
  ℕ, zero, suc, ◌+◌, ◌≤◌, ◌≡◌, refl, Option, some, List, [], ◌∷◌, ◌++◌, Bool, false, ◌&&◌, text_eq,
  any, count, length, arith, if◌then◌else◌, count-append, any-append,
}
use number_masking_service.Journal.{CallStatus}
use number_masking_service.Stasis.{Env, App, CallState, Webhook, nth, modify_at}
use number_masking_service.Stasis.Teardown.{pending_cause_limit, begin_finish}
use number_masking_service.Stasis.Fine.{is_call, is_end, next_row, debt, Moves}

-- A change of a state that leaves alone what the steps are judged by.
pub record KeepsCall (f : CallState → CallState) : Type 0 where
  pub call_id : (s : CallState) → (f s).call_id ≡ s.call_id
  pub finishing : (s : CallState) → (f s).finishing ≡ s.finishing
  pub channel_id : (s : CallState) → (f s).channel_id ≡ s.channel_id
  pub proxy_e164 : (s : CallState) → (f s).proxy_e164 ≡ s.proxy_e164

any-modify_at :
    (p : CallState → Bool) (f : CallState → CallState) (r : ℕ) (heap : List CallState)
    → ((s : CallState) → p (f s) ≡ p s)
    → any (modify_at r f heap) p ≡ any heap p
any-modify_at p f r [] h = refl
any-modify_at p f zero (s ∷ heap) h = ground (arith, h s)
any-modify_at p f (suc r) (s ∷ heap) h = ground (arith, any-modify_at p f r heap h)

count-modify_at :
    (p : CallState → Bool) (f : CallState → CallState) (r : ℕ) (heap : List CallState)
    → ((s : CallState) → p (f s) ≡ p s)
    → count p (modify_at r f heap) ≡ count p heap
count-modify_at p f r [] h = refl
count-modify_at p f zero (s ∷ heap) h = ground (arith, h s)
count-modify_at p f (suc r) (s ∷ heap) h = ground (arith, count-modify_at p f r heap h)

-- One more passes the test where the state that is changed did not pass it.
count-modify_at_more :
    (p : CallState → Bool) (f : CallState → CallState) (r : ℕ) (heap : List CallState)
    (s : CallState)
    → nth r heap ≡ some s
    → p s ≡ false
    → count p (modify_at r f heap) ≡ count p heap + (if p (f s) then 1 else 0)
count-modify_at_more p f r [] s e h = cc
count-modify_at_more p f zero (x ∷ heap) s e h = ground (arith, e)
count-modify_at_more p f (suc r) (x ∷ heap) s e h =
    ground (arith, count-modify_at_more p f r heap s e h)

module _ {e : Env} (i : ℕ) where
  -- The states and the announcements stay, and the sequence of the journal does not go back.
  pub Moves-aside :
      (a b : App e) (t : ℕ)
      → b.heap ≡ a.heap
      → b.outbox ≡ a.outbox
      → next_row a ≤ next_row b
      → (length a.pending_cause ≤ pending_cause_limit
          → length b.pending_cause ≤ pending_cause_limit)
      → Moves i a t b t
  Moves-aside a b t h o n p = record {
    paid = rw (h, o) (omega arith);
    fresh = λ f. record { single = rw h f.single; unborn = λ m. rw h (f.unborn (omega arith)) };
    grows = record {
      copies_grow = rw h (omega arith);
      flags_grow = rw h (omega arith);
      ends_grow = rw o (omega arith);
    };
    bounded = p;
    known = λ channel proxy k. rw h k;
  }

  pub Moves-state :
      (a : App e) (t r : ℕ) (f : CallState → CallState)
      → KeepsCall f
      → Moves i a t (record a { heap = modify_at r f a.heap }) t
  Moves-state a t r f keep =
      let same_copies =
        count-modify_at (λ s. is_call i s.call_id) f r a.heap (λ s. rw (keep.call_id s)) in
      let same_flags =
        count-modify_at (λ s. is_call i s.call_id && s.finishing) f r a.heap
          (λ s. rw (keep.call_id s, keep.finishing s)) in
      record {
        paid = rw same_flags (omega arith);
        fresh = λ h. record {
          single = rw same_copies h.single;
          unborn = λ m. rw same_copies (h.unborn m);
        };
        grows = record {
          copies_grow = omega (arith, same_copies);
          flags_grow = omega (arith, same_flags);
          ends_grow = omega arith;
        };
        bounded = λ h. h;
        known = λ channel proxy h.
            rw
              (any-modify_at (λ s. text_eq s.channel_id channel && text_eq s.proxy_e164 proxy) f r
                a.heap (λ s. rw (keep.channel_id s, keep.proxy_e164 s)))
              h;
      }

  -- The guard of `_finish`: the call begins to finish, and the announcement of its end is owed.
  pub Moves-begin_finish :
      (a : App e) (r : ℕ) (s : CallState) (status : Option CallStatus)
      → nth r a.heap ≡ some s
      → s.finishing ≡ false
      → Moves i a 0
          (record a { heap = modify_at r (begin_finish status) a.heap })
          (debt i s.call_id)
  unfolding begin_finish
  Moves-begin_finish a r s status found idle =
      let f = begin_finish status in
      let same_copies = count-modify_at (λ x. is_call i x.call_id) f r a.heap (λ x. refl) in
      let more_flags =
        count-modify_at_more (λ x. is_call i x.call_id && x.finishing) f r a.heap s found
          (ground arith) in
      record {
        paid = rw more_flags (ground arith);
        fresh = λ h. record {
          single = rw same_copies h.single;
          unborn = λ m. rw same_copies (h.unborn m);
        };
        grows = record {
          copies_grow = omega (arith, same_copies);
          flags_grow = ground (arith, more_flags);
          ends_grow = omega arith;
        };
        bounded = λ h. h;
        known = λ channel proxy h.
            rw
              (any-modify_at (λ x. text_eq x.channel_id channel && text_eq x.proxy_e164 proxy) f r
                a.heap (λ x. refl))
              h;
      }

  -- An announcement of an end pays for it.
  pub Moves-webhook :
      (a : App e) (t u : ℕ) (w : Webhook)
      → t ≡ u + (if is_end i w then 1 else 0)
      → Moves i a t (record a { outbox = a.outbox ++ w ∷ [] }) u
  Moves-webhook a t u w h = record {
    paid = rw (count-append (is_end i) a.outbox (w ∷ []), h) (ground arith);
    fresh = λ h. record { single = h.single; unborn = h.unborn };
    grows = record {
      copies_grow = omega arith;
      flags_grow = omega arith;
      ends_grow = rw (count-append (is_end i) a.outbox (w ∷ [])) (omega arith);
    };
    bounded = λ h. h;
    known = λ channel proxy h. h;
  }

  -- A debt that is not paid is forgiven.
  pub Moves-forgive : (a : App e) (t u : ℕ) → u ≤ t → Moves i a t a u
  Moves-forgive a t u h = record {
    paid = omega arith;
    fresh = λ h. record { single = h.single; unborn = h.unborn };
    grows = record { copies_grow = omega arith; flags_grow = omega arith; ends_grow = omega arith };
    bounded = λ h. h;
    known = λ channel proxy h. h;
  }

  -- A new call, under the next row of the journal.
  pub Moves-open :
      (a b : App e) (t : ℕ) (s : CallState)
      → b.heap ≡ a.heap ++ s ∷ []
      → b.outbox ≡ a.outbox
      → b.pending_cause ≡ a.pending_cause
      → s.call_id ≡ some (next_row a)
      → s.finishing ≡ false
      → next_row b ≡ next_row a + 1
      → Moves i a t b t
  Moves-open a b t s h o p c f n =
      let more_copies = count-append (λ x. is_call i x.call_id) a.heap (s ∷ []) in
      let more_flags = count-append (λ x. is_call i x.call_id && x.finishing) a.heap (s ∷ []) in
      record {
        paid = rw (h, o, more_flags) (ground arith);
        fresh = λ k. record {
          single = rw (h, more_copies) (ground (arith, k.single, k.unborn));
          unborn = λ m. rw (h, more_copies) (ground (arith, k.unborn));
        };
        grows = record {
          copies_grow = rw (h, more_copies) (omega arith);
          flags_grow = rw (h, more_flags) (omega arith);
          ends_grow = rw o (omega arith);
        };
        bounded = λ k. rw p k;
        known = λ channel proxy k.
            rw
              (
                h,
                any-append (λ x. text_eq x.channel_id channel && text_eq x.proxy_e164 proxy) a.heap
                    (s ∷ []),
              )
              (ground arith);
      }
