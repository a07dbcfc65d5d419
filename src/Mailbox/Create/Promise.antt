-- ===== src/Mailbox/Create/Promise.antt =====
-- What Create leaves behind.
use mailwisp.Common.{
  ℕ, ◌+◌, ◌≤◌, ◌≡◌, true, false, none, some, List, ◌∷◌, ◌++◌, Bytes, Error, Result, ok, err, length,
  All, ◌==◌,
}
use mailwisp.Encoding.Hex.{IsByte}
use mailwisp.Message.Address.{valid_inbox_local_part}
use mailwisp.Auth.Scope.{all_capability_scopes}
use mailwisp.Mailbox.Create.{Service, Calls, CreatedInbox, Inbox, NewInbox, Checked, is_allowed}

module _ {W : Type 0} (calls : Calls W) (inboxes : W → List Inbox) (stored_time : ℕ → ℕ) where
  -- What the service relies on: a created inbox is a new one as asked for, with an id, and its end is the one asked
  -- for as the repository stores a time; a call that fails leaves the
  -- inboxes; Issue and the source of random bytes do not touch them; the source gives as many bytes as asked for.
  pub record Promises : Type 0 where
    pub creates :
        (w w' : W) (n : NewInbox) (i : Inbox)
        → calls.create_inbox w n ≡ (w', ok i)
        → (inboxes w' ≡ i ∷ inboxes w)
          × (i.address ≡ n.address)
          × (i.expires_at ≡ stored_time n.expires_at)
    pub refuses :
        (w w' : W) (n : NewInbox) (e : Error)
        → calls.create_inbox w n ≡ (w', err e)
        → inboxes w' ≡ inboxes w
    pub named :
        (w w' : W) (n : NewInbox) (i : Inbox)
        → calls.create_inbox w n ≡ (w', ok i)
        → (length i.id == 0) ≡ false
    pub deletes :
        (w w' : W) (i : Inbox) (rest : List Inbox)
        → inboxes w ≡ i ∷ rest
        → calls.delete_inbox w i.id ≡ (w', none)
        → inboxes w' ≡ rest
    pub issues :
        (w : W) (id : Bytes) (scopes expires_at : ℕ)
        → inboxes (calls.issue w id scopes expires_at).0 ≡ inboxes w
    pub draws : (w : W) (n : ℕ) → inboxes (calls.random w n).0 ≡ inboxes w
    pub drawn :
        (w w' : W) (n : ℕ) (s : Bytes)
        → calls.random w n ≡ (w', ok s)
        → (length s ≡ n) × All IsByte s

  -- An inbox that a request may have, with its capability.
  pub record Made (service : Service) (w : W) (c : CreatedInbox) : Type 0 where
    pub local_part : Bytes
    pub domain : Bytes
    pub lifetime : ℕ
    pub valid : valid_inbox_local_part local_part ≡ true
    pub allowed : is_allowed domain service.domains ≡ true
    pub at : c.inbox.address ≡ local_part ++ b'@' ∷ domain
    pub lives : c.inbox.expires_at ≡ stored_time (calls.now w + lifetime)
    pub some_time : 1 ≤ lifetime
    pub at_most : lifetime ≤ service.max_ttl
    pub before : W
    pub issued :
        (calls.issue before c.inbox.id all_capability_scopes (calls.now w + lifetime)).1
        ≡ ok c.capability

  -- How Create ends: with one inbox more, as asked for; with the inboxes that there were; or, where both Issue and
  -- the clean-up failed, with an inbox that the clean-up has left.
  pub data Settled (service : Service) (w : W) (p : W × Result CreatedInbox) : Type 0 where
    made :
        (c : CreatedInbox)
        → p.1 ≡ ok c
        → inboxes p.0 ≡ c.inbox ∷ inboxes w
        → Made service w c
        → Settled service w p
    nothing_left : (e : Error) → p.1 ≡ err e → inboxes p.0 ≡ inboxes w → Settled service w p
    clean_up_failed :
        (e stop : Error) (v : W) (i : Inbox)
        → p.1 ≡ err e
        → inboxes v ≡ i ∷ inboxes w
        → (calls.delete_inbox v i.id).1 ≡ some stop
        → Settled service w p

  -- How the loop ends: with an inbox at a valid local part, or with the inboxes that there were.
  data Looped (service : Service) (c : Checked) (now : ℕ) (w : W) (p : W × Result Inbox)
      : Type 0 where
    found :
        (i : Inbox) (local_part : Bytes)
        → p.1 ≡ ok i
        → inboxes p.0 ≡ i ∷ inboxes w
        → valid_inbox_local_part local_part ≡ true
        → i.address ≡ local_part ++ b'@' ∷ c.domain
        → i.expires_at ≡ stored_time (now + c.lifetime)
        → Looped service c now w p
    lost : (e : Error) → p.1 ≡ err e → inboxes p.0 ≡ inboxes w → Looped service c now w p
