-- ===== src/Wispist/Hub/Sound.antt =====
-- wispist/hub.go: the invariant of the hub, and the update that three of its calls share.
use wispdeck.Prelude.{
  ℕ, ◌≤◌, ◌≡◌, arith, true, false, ◌==◌, Text, text_eq_iff, [], ◌∷◌, Option, none, some,
  if◌then◌else◌, ℕ_comparable, text_comparable, Assoc, lookup, lookup-insert, lookup-delete,
}
use wispdeck.Wispist.Hub.{Channel, ChangeHub, subscriptions, put_values}
use wispdeck.Wispist.Hub.Channels.{Subscriptions, IsUnique, has, IsOpen}
use wispdeck.Wispist.Hub.Publishing.{fits}

pub record IsSound (h : ChangeHub) : Type 0 where
  pub unique : (namespace : Text) → IsUnique (subscriptions namespace h)
  pub opened : (namespace : Text) → IsOpen (subscriptions namespace h) h.channels
  pub known :
      (namespace : Text) (id : ℕ) → has id (subscriptions namespace h) ≡ true → id ≤ h.next_id
  pub apart :
      (namespace other : Text) (id : ℕ)
      → has id (subscriptions namespace h) ≡ true
      → has id (subscriptions other h) ≡ true
      → namespace ≡ other
  pub sized : 1 ≤ h.queue_size
  pub bounded : (id : ℕ) → fits h.queue_size (lookup id h.channels) ≡ true

abbrev values_of : Option Subscriptions → Subscriptions
values_of none = []
values_of (some values) = values

put_values-lookup :
    (namespace other : Text) (values : Subscriptions) (spaces : Assoc Text Subscriptions)
    → values_of (lookup other (put_values namespace values spaces))
      ≡ (if namespace == other then values else values_of (lookup other spaces))
unfolding put_values
put_values-lookup namespace other [] spaces = ground (arith, lookup-delete namespace other spaces)
put_values-lookup namespace other (v ∷ values) spaces =
    ground (arith, lookup-insert namespace other (v ∷ values) spaces)

subscriptions-values_of :
    (namespace : Text) (h : ChangeHub)
    → subscriptions namespace h ≡ values_of (lookup namespace h.by_namespace)
subscriptions-values_of namespace h = ground arith

abbrev pub updated : Text → Subscriptions → Assoc ℕ Channel → ChangeHub → ChangeHub
updated namespace left channels h = record h {
  by_namespace = put_values namespace left h.by_namespace;
  channels = channels;
}

subscriptions-updated :
    (namespace other : Text) (left : Subscriptions) (channels : Assoc ℕ Channel) (h : ChangeHub)
    → subscriptions other (updated namespace left channels h)
      ≡ (if namespace == other then left else subscriptions other h)
subscriptions-updated namespace other left channels h = ground (
  arith,
  put_values-lookup namespace other left h.by_namespace,
  subscriptions-values_of other h,
  subscriptions-values_of other (updated namespace left channels h),
)

-- What `unsubscribe`, `publish` and `reset` have in common: they keep some subscriptions of one
-- namespace, with open channels, and change no channel of another one.
pub record IsShrunk (h : ChangeHub) (namespace : Text) (left : Subscriptions)
    (channels : Assoc ℕ Channel) : Type 0 where
  pub fewer : (id : ℕ) → has id left ≡ true → has id (subscriptions namespace h) ≡ true
  pub unique : IsUnique left
  pub stays : IsOpen left channels
  pub kept :
      (id : ℕ)
      → has id (subscriptions namespace h) ≡ false
      → lookup id channels ≡ lookup id h.channels
  pub bounded : (id : ℕ) → fits h.queue_size (lookup id channels) ≡ true

updated-has :
    (h : ChangeHub) (namespace other : Text) (left : Subscriptions) (channels : Assoc ℕ Channel)
    (id : ℕ)
    → IsShrunk h namespace left channels
    → has id (subscriptions other (updated namespace left channels h)) ≡ true
    → has id (subscriptions other h) ≡ true
updated-has h namespace other left channels id shrunk listed = ground (
  arith,
  shrunk.fewer id,
  subscriptions-updated namespace other left channels h,
  text_eq_iff namespace other,
)

updated-opened :
    (h : ChangeHub) (namespace other : Text) (left : Subscriptions) (channels : Assoc ℕ Channel)
    → IsSound h
    → IsShrunk h namespace left channels
    → IsOpen (subscriptions other (updated namespace left channels h)) channels
updated-opened h namespace other left channels sound shrunk id listed = ground (
  arith,
  shrunk.stays id,
  shrunk.kept id,
  sound.opened other id,
  sound.apart namespace other id,
  subscriptions-updated namespace other left channels h,
  text_eq_iff namespace other,
)

pub updated-IsSound :
    (h : ChangeHub) (namespace : Text) (left : Subscriptions) (channels : Assoc ℕ Channel)
    → IsSound h
    → IsShrunk h namespace left channels
    → IsSound (updated namespace left channels h)
updated-IsSound h namespace left channels sound shrunk = record {
  unique = λ other. ground (
    arith,
    sound.unique other,
    shrunk.unique,
    subscriptions-updated namespace other left channels h,
  );
  opened = λ other. updated-opened h namespace other left channels sound shrunk;
  known = λ other id listed.
      sound.known other id (updated-has h namespace other left channels id shrunk listed);
  apart = λ one other id listed again.
      sound.apart one other id (updated-has h namespace one left channels id shrunk listed)
        (updated-has h namespace other left channels id shrunk again);
  sized = sound.sized;
  bounded = shrunk.bounded;
}
