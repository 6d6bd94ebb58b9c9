-- ===== src/Analytics/Sending.antt =====
-- The messages that a request of the URL service puts on the events queue, and what the analytics
-- service asks of them.
use bearlink.Prelude.{
  ℕ, String, Bool, true, false, Option, List, if◌then◌else◌, ◌≡◌, sym, ◌⊎◌, inl, inr,
}
use mathlib.Core.Path.{subst}
use mathlib.Core.List.{Memᴰ}
use bearlink.Prelude.Exec.{Result, ok, err, Exec, Failure, continue, recover, ◌>>=◌, catch}
use bearlink.Shared.Json.{Json}
use bearlink.Shared.Events.{Context, Message}
use bearlink.Messaging.Consumer.{read_event}
use bearlink.Messaging.Tracing.{IsTraced}
use bearlink.Url.Platform.{Platform, Setup, World, publish_event}
use bearlink.Url.Manage.{Services}
use bearlink.Analytics.Storing.{is_fit}

-- a message of the events queue that the analytics service stores, in the context of its publisher
abbrev pub IsStorable : Option Context → Message → Type 0
IsStorable context m =
    (m.queue ≡ "events")
    × ((type : Option Json) × (payload : Option Json) × (read_event m.content ≡ ok (type, payload))
        × (is_fit type payload ≡ true))
    × IsTraced context m.headers

-- The messages of the events queue: sendToQueue adds its message at most, and a preview job goes to
-- a queue of its own.
pub record EventsQueue (P : Platform) (S : Services P) : Type 0 where
  pub messages : P.Channel → List Message
  pub send_adds :
      (m x : Message) (c : P.Channel)
      → Memᴰ x (messages (P.send m c).1)
      → Memᴰ x (messages c) ⊎ (x ≡ m)
  pub job_adds :
      (id : ℕ) (text : String) (x : Message) (c : P.Channel)
      → Memᴰ x (messages (S.send_job id text c).1)
      → Memᴰ x (messages c)

module _ (P : Platform) (S : Services P) (Q : EventsQueue P S) (setup : Setup) where
  -- every message that is new is one that the analytics service stores
  abbrev pub Adds : World P → World P → Type 0
  Adds w v =
      (m : Message)
      → Memᴰ m (Q.messages v.channel)
      → Memᴰ m (Q.messages w.channel) ⊎ IsStorable setup.context m

  pub Adds-same : (w v : World P) → v.channel ≡ w.channel → Adds w v
  Adds-same w v same m there = inl (subst (λ (c : P.Channel). Memᴰ m (Q.messages c)) same there)

  pub Adds-trans : (u v w : World P) → Adds u v → Adds v w → Adds u w
  Adds-trans u v w first second m there = elim (second m there) [
    | inl before ↦ first m before
    | inr new ↦ inr new
  ]

  -- a call that adds nothing else to the queue, in every state
  pub record Sends {A : Type 0} (run : Exec (World P) A) : Type 0 where
    pub adds : (w : World P) → Adds w (run w).1

  module _ {A : Type 0} where
    pub Sends-catch :
        (run : Exec (World P) A) (handler : Failure → Exec (World P) A)
        → Sends run
        → ((e : Failure) → Sends (handler e))
        → Sends (catch run handler)
    Sends-catch run handler sends handles = record { adds = λ w. go w (run w) (sends.adds w) }
      where
        go : (w : World P) (r : Result A × World P) → Adds w r.1 → Adds w (recover r handler).1
        go w (ok a, v) h = h
        go w (err e, v) h = Adds-trans w v (handler e v).1 h ((handles e).adds v)

    pub Sends-if :
        (b : Bool) (x y : Exec (World P) A) → Sends x → Sends y → Sends (if b then x else y)
    Sends-if true x y h k = h
    Sends-if false x y h k = k

    -- a run that leaves the channel alone
    pub Sends-nothing :
        (run : Exec (World P) A) → ((w : World P) → (run w).1.channel ≡ w.channel) → Sends run
    Sends-nothing run same = record { adds = λ w. Adds-same w (run w).1 (same w) }

  pub Sends-bind :
      {A B : Type 0} (run : Exec (World P) A) (next : A → Exec (World P) B)
      → Sends run
      → ((a : A) → Sends (next a))
      → Sends (run >>= next)
  Sends-bind {A} {B} run next sends goes = record { adds = λ w. go w (run w) (sends.adds w) }
    where
      go : (w : World P) (r : Result A × World P) → Adds w r.1 → Adds w (continue r next).1
      go w (ok a, v) h = Adds-trans w v (next a v).1 h ((goes a).adds v)
      go w (err e, v) h = h

  pub Sends-publish : (m : Message) → IsStorable setup.context m → Sends (publish_event P m)
  unfolding publish_event
  Sends-publish m fits = record {
    adds = λ w x there. elim (Q.send_adds m x w.channel there) [
      | inl before ↦ inl before
      | inr same ↦ inr (subst (IsStorable setup.context) (sym same) fits)
    ];
  }
