-- ===== src/Client/Backend/Safety.antt =====
-- A message of the server keeps the manager well formed, and its handler does not panic.
use jsonrpseex.Prelude.{
  ℕ, String, ◌≢◌, refl, Option, none, some, List, [], ◌∷◌, Bool-cases, inl, inr, Bool, true, false,
  ◌==◌, if◌then◌else◌,
}
use jsonrpseex.Types.Result.{Result, ok, err}
use jsonrpseex.Types.Ids.{SubscriptionId, InvalidRequestId}
use jsonrpseex.Types.Error.{Json}
use jsonrpseex.Client.Manager.{Range}
use jsonrpseex.Client.World.{Runtime, World, Outcome, done, fails, panics, RawResponse}
use jsonrpseex.Client.Helpers.{process_subscription_close_response}
use jsonrpseex.Client.Safety.Handlers.{
  IsSafe, process_batch_response-IsSafe, process_subscription_response-IsSafe,
  process_subscription_close_response-IsSafe, process_subscription_close_response-ne-panics,
  process_notification-IsSafe,
}
use jsonrpseex.Client.SingleResponse.{Handled}
use jsonrpseex.Client.SingleResponse.Safety.{
  process_single_response-IsSafe, process_single_response-ne-panics,
}
use jsonrpseex.Client.Frontend.{FrontToBack}
use jsonrpseex.Client.Backend.{
  Loop, Step, Incoming, received, read_failed, dropped, text, bytes, pong, after_single,
  after_close, on_object, push_response, push_close, on_element, element, and_then, elements,
  after_batch, finish_batch, after_elements, on_array, by_first, handle_recv_message,
  handle_backend_messages, first_non_whitespace,
}

module _ (rt : Runtime) where
  -- An outcome that is no panic, in a safe world.
  abbrev pub Fine : {A : Type 0} → Outcome A × World rt → Type 0
  Fine r = (r.0 ≢ panics) × IsSafe rt r.1

  if-Fine :
      {A : Type 0} (b : Bool) (r s : Outcome A × World rt)
      → Fine r
      → Fine s
      → Fine (if b then r else s)
  if-Fine true r s f g = f
  if-Fine false r s f g = g

  after_single-Fine : (h : Handled rt) → Fine h → Fine (after_single rt h)
  unfolding after_single
  after_single-Fine (done none, w) f = (λ h. cc, f.1)
  after_single-Fine (done (some q), w) f = (λ h. cc, f.1)
  after_single-Fine (fails e, w) f = (λ h. cc, f.1)
  after_single-Fine (panics, w) f = absurd (f.0 refl)

  after_close-Fine : (h : Outcome (Unit {0}) × World rt) → Fine h → Fine (after_close rt h)
  unfolding after_close
  after_close-Fine (done _, w) f = (λ h. cc, f.1)
  after_close-Fine (fails e, w) f = (λ h. cc, f.1)
  after_close-Fine (panics, w) f = absurd (f.0 refl)

  close-Fine :
      (w : World rt) (sid : SubscriptionId)
      → IsSafe rt w
      → Fine (process_subscription_close_response rt w sid)
  close-Fine w sid wf = (
    process_subscription_close_response-ne-panics rt w sid wf,
    process_subscription_close_response-IsSafe rt w sid wf,
  )

  on_object-Fine :
      (w : World rt) (raw : Json) (r : Option RawResponse) (s : Option (SubscriptionId × Json))
      (e : Option SubscriptionId) (n : Option (String × Option Json))
      → IsSafe rt w
      → Fine (on_object rt w raw r s e n)
  unfolding on_object
  on_object-Fine w raw (some r) s e n wf =
      after_single-Fine _
        (process_single_response-ne-panics rt w r, process_single_response-IsSafe rt w r wf)
  on_object-Fine w raw none (some (sid, result)) e n wf =
      (λ h. cc, process_subscription_response-IsSafe rt w sid result wf)
  on_object-Fine w raw none none (some sid) n wf = after_close-Fine _ (close-Fine w sid wf)
  on_object-Fine w raw none none none (some (method, params)) wf =
      (λ h. cc, process_notification-IsSafe rt w method params wf)
  on_object-Fine w raw none none none none wf = (λ h. cc, wf)

  -- The loop goes on in a safe world, or the handler returns in one.
  Goes : Step rt → Type 0
  Goes (done l, w) = IsSafe rt l.world
  Goes (fails e, w) = IsSafe rt w
  Goes (panics, w) = ⊥

  push_response-Goes :
      (l : Loop rt) (r : RawResponse) (n : Result InvalidRequestId ℕ)
      → IsSafe rt l.world
      → Goes (push_response rt l r n)
  unfolding push_response Goes
  push_response-Goes l r (ok id) wf = wf
  push_response-Goes l r (err e) wf = wf

  push_close-Goes :
      (l : Loop rt) (h : Outcome (Unit {0}) × World rt) → Fine h → Goes (push_close rt l h)
  unfolding push_close Goes
  push_close-Goes l (done _, w) f = f.1
  push_close-Goes l (fails e, w) f = f.1
  push_close-Goes l (panics, w) f = f.0 refl

  on_element-Goes :
      (l : Loop rt) (raw : Json) (r : Option RawResponse) (s : Option (SubscriptionId × Json))
      (e : Option SubscriptionId) (n : Option (String × Option Json))
      → IsSafe rt l.world
      → Goes (on_element rt l raw r s e n)
  unfolding on_element Goes
  on_element-Goes l raw (some r) s e n wf = push_response-Goes l r _ wf
  on_element-Goes l raw none (some (sid, result)) e n wf =
      process_subscription_response-IsSafe rt l.world sid result wf
  on_element-Goes l raw none none (some sid) n wf = push_close-Goes l _ (close-Fine l.world sid wf)
  on_element-Goes l raw none none none (some (method, params)) wf =
      process_notification-IsSafe rt l.world method params wf
  on_element-Goes l raw none none none none wf = wf

  and_then-Goes :
      (s : Step rt) (next : Loop rt → Step rt)
      → Goes s
      → ((l : Loop rt) → IsSafe rt l.world → Goes (next l))
      → Goes (and_then rt s next)
  unfolding and_then Goes
  and_then-Goes (done l, w) next g all = all l g
  and_then-Goes (fails e, w) next g all = g
  and_then-Goes (panics, w) next g all = absurd g

  elements-Goes :
      (raw : Json) (rs : List Json) (l : Loop rt) → IsSafe rt l.world → Goes (elements rt raw rs l)
  unfolding elements Goes
  elements-Goes raw [] l wf = wf
  elements-Goes raw (r ∷ rs) l wf =
      and_then-Goes (element rt raw l r) (elements rt raw rs)
        (unfold element in on_element-Goes l raw _ _ _ _ wf) (elements-Goes raw rs)

  after_batch-Fine :
      (ms : List (FrontToBack rt)) (r : Result InvalidRequestId (Unit {0})) (w : World rt)
      → IsSafe rt w
      → Fine (after_batch rt ms (r, w))
  unfolding after_batch
  after_batch-Fine ms (ok _) w wf = (λ h. cc, wf)
  after_batch-Fine ms (err e) w wf = (λ h. cc, wf)

  finish_batch-Fine :
      (l : Loop rt) (o : Option Range) → IsSafe rt l.world → Fine (finish_batch rt l o)
  unfolding finish_batch
  finish_batch-Fine l none wf = elim (Bool-cases l.got_notif) [
    | inl e ↦ rw e (λ h. cc, wf)
    | inr e ↦ rw e (λ h. cc, wf)
  ]
  finish_batch-Fine l (some range) wf =
      after_batch-Fine l.messages _ _ (process_batch_response-IsSafe rt l.world l.batch _ wf)

  after_elements-Fine : (s : Step rt) → Goes s → Fine (after_elements rt s)
  unfolding after_elements Goes
  after_elements-Fine (done l, w) g = finish_batch-Fine l l.range g
  after_elements-Fine (fails e, w) g = (λ h. cc, g)
  after_elements-Fine (panics, w) g = absurd g

  on_array-Fine :
      (w : World rt) (raw : Json) (o : Option (List Json))
      → IsSafe rt w
      → Fine (on_array rt w raw o)
  unfolding on_array
  on_array-Fine w raw none wf = (λ h. cc, wf)
  on_array-Fine w raw (some rs) wf =
      after_elements-Fine (elements rt raw rs l) (elements-Goes raw rs l wf)
    where
      l : Loop rt
      l = record { world = w; batch = []; range = none; got_notif = false; messages = [] }

  by_first-Fine :
      (w : World rt) (raw : Json) (o : Option ℕ) → IsSafe rt w → Fine (by_first rt w raw o)
  unfolding by_first
  by_first-Fine w raw none wf = (λ h. cc, wf)
  by_first-Fine w raw (some b) wf =
      if-Fine (b == b'{') _ _ (on_object-Fine w raw _ _ _ _ wf)
        (if-Fine (b == b'[') _ _ (on_array-Fine w raw _ wf) (λ h. cc, wf))

  pub handle_recv_message-Fine :
      (w : World rt) (raw : Json) → IsSafe rt w → Fine (handle_recv_message rt w raw)
  unfolding handle_recv_message
  handle_recv_message-Fine w raw wf = by_first-Fine w raw (first_non_whitespace raw) wf

  pub handle_backend_messages-Fine :
      (i : Incoming) (w : World rt) → IsSafe rt w → Fine (handle_backend_messages rt i w)
  unfolding handle_backend_messages
  handle_backend_messages-Fine (received pong) w wf = (λ h. cc, wf)
  handle_backend_messages-Fine (received (bytes raw)) w wf = handle_recv_message-Fine w raw wf
  handle_backend_messages-Fine (received (text raw)) w wf = handle_recv_message-Fine w raw wf
  handle_backend_messages-Fine read_failed w wf = (λ h. cc, wf)
  handle_backend_messages-Fine dropped w wf = (λ h. cc, wf)
