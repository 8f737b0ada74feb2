-- ===== src/Relay/Http/Retry.antt =====
-- How often the HTTP session of src/relay/relay_manager.cpp sends a request.
use kabot.Base.{
  ℕ, suc, ◌+◌, ◌≤◌, Bool, true, false, String, none, some, ◌≡◌, refl, arith, Bool-cases, inl, inr,
  Option, ◌⊎◌, ◌∙◌,
}
use kabot.Relay.Requests.{Request}
use kabot.Relay.Http.{
  Outcome, returned, thrown, Response, Network, HttpSession, connect_then, send_connected,
  send_or_again, do_request,
}

-- A count of the requests that the network has been given.
pub record Counts {S : Type 0} (net : Network S) (requests : S → ℕ) : Type 0 where
  pub connect : (s : S) → requests (net.connect s).0 ≡ requests s
  pub exchange :
      (request : Request) (s : S) → requests (net.exchange request s).0 ≡ suc (requests s)
  pub close : (s : S) → requests (net.close s) ≡ requests s

module _ {S : Type 0} (net : Network S) (requests : S → ℕ) (counts : Counts net requests) where
  -- At most `n` more requests, and none only where the call throws.
  pub record IsSent (n : ℕ) (s : S) (r : HttpSession S × Outcome Response) : Type 0 where
    pub most : requests r.0.network ≤ n + requests s
    pub least :
        (suc (requests s) ≤ requests r.0.network) ⊎ ((what : Option String) × (r.1 ≡ thrown what))

  exchanged-IsSent :
      (n : ℕ) (request : Request) (s : S) (outcome : Outcome Response)
      → IsSent
          (suc n)
          s
          (record { network = (net.exchange request s).0; connected = true }, outcome)
  exchanged-IsSent n request s outcome = record {
    most = omega (arith, counts.exchange request s);
    least = inl (omega (arith, counts.exchange request s));
  }

  send_connected-IsSent : (request : Request) (s : S) → IsSent 1 s (send_connected net request s)
  unfolding send_connected
  send_connected-IsSent request s = exchanged-IsSent 0 request s (net.exchange request s).1

  IsSent-from :
      (n : ℕ) (s s' : S) (r : HttpSession S × Outcome Response)
      → requests s' ≡ requests s
      → IsSent n s' r
      → IsSent n s r
  IsSent-from n s s' r e sent = record { most = rw⁻¹ e sent.most; least = rw⁻¹ e sent.least }

  connect_then-IsSent :
      (go : S → HttpSession S × Outcome Response) (n : ℕ) (s : S)
      → ((s' : S) → IsSent n s' (go s'))
      → IsSent n s (connect_then net go s)
  unfolding connect_then
  connect_then-IsSent go n s h = by_outcome (net.connect s).1
    where
      by_outcome :
          (opened : Outcome Bool)
          → IsSent n s (elim opened as (λ o. HttpSession S × Outcome Response) [
            | returned ok ↦ go (net.connect s).0
            | thrown what ↦ (record { network = (net.connect s).0; connected = false }, thrown what)
          ])
      by_outcome (returned ok) =
          IsSent-from n s (net.connect s).0 (go (net.connect s).0) (counts.connect s)
            (h (net.connect s).0)
      by_outcome (thrown what) = record {
        most = omega (arith, counts.connect s);
        least = inr (what, refl);
      }

  again-IsSent :
      (s s' : S) (r : HttpSession S × Outcome Response)
      → requests s' ≡ suc (requests s)
      → IsSent 1 s' r
      → IsSent 2 s r
  again-IsSent s s' r e sent = record {
    most = omega (arith, e, sent.most);
    least = elim sent.least [ inl least ↦ inl (omega (arith, e, least)) | inr threw ↦ inr threw ];
  }

  send_or_again-IsSent : (request : Request) (s : S) → IsSent 2 s (send_or_again net request s)
  unfolding send_or_again
  send_or_again-IsSent request s = by_outcome (net.exchange request s).1
    where
      by_outcome :
          (outcome : Outcome Response)
          → IsSent 2 s (elim outcome as (λ o. HttpSession S × Outcome Response) [
            | returned response ↦ (
              record { network = (net.exchange request s).0; connected = true },
              returned response,
            )
            | thrown none ↦
                (record { network = (net.exchange request s).0; connected = true }, thrown none)
            | thrown (some what) ↦
                connect_then net (send_connected net request) (net.close (net.exchange request s).0)
          ])
      by_outcome (returned response) = exchanged-IsSent 1 request s (returned response)
      by_outcome (thrown none) = exchanged-IsSent 1 request s (thrown none)
      by_outcome (thrown (some what)) =
          let closed : S = net.close (net.exchange request s).0 in
          again-IsSent s closed (connect_then net (send_connected net request) closed)
            (counts.close (net.exchange request s).0 ∙ counts.exchange request s)
            (connect_then-IsSent (send_connected net request) 1 closed
              (send_connected-IsSent request))

  -- A call gives the network the request at most twice, and at least once unless it throws.
  pub do_request-requests :
      (request : Request) (session : HttpSession S)
      → IsSent 2 session.network (do_request net request session)
  unfolding do_request
  do_request-requests request session = elim (Bool-cases session.connected) [
    | inl e ↦ rw e (send_or_again-IsSent request session.network)
    | inr e ↦ rw e (
        connect_then-IsSent (send_or_again net request) 2 session.network
          (send_or_again-IsSent request))
  ]

  -- If the first reply is lost, the request is sent again to a server that may have carried it out: the answer
  -- is that of the second time, in the state that the first has left.
  pub do_request-again :
      (request : Request) (session : HttpSession S) (what : String) (ok : Bool)
      → session.connected ≡ true
      → (net.exchange request session.network).1 ≡ thrown (some what)
      → (net.connect (net.close (net.exchange request session.network).0)).1 ≡ returned ok
      → do_request net request session ≡ (
        record {
          network =
              (net.exchange request
                (net.connect (net.close (net.exchange request session.network).0)).0).0;
          connected = true;
        },
        (net.exchange request
            (net.connect (net.close (net.exchange request session.network).0)).0).1,
      )
  unfolding do_request send_or_again connect_then send_connected
  do_request-again request session what ok e lost opened =
      rw (e, send_or_again, lost, connect_then, opened, send_connected) refl
