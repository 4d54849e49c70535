-- ===== src/Wispist/Hub/Publishing.antt =====
-- wispist/hub.go: the range of `publish` over the subscriptions of a namespace.
use wispdeck.Prelude.{
  ℕ, ◌≡◌, inl, inr, refl, arith, Bool, true, false, ◌==◌, Text, List, [], ◌∷◌, ◌++◌, Option, none,
  some, length, leb, if◌then◌else◌, ℕ_comparable, text_comparable, Assoc, lookup, insert, delete,
  exists, lookup-insert, lookup-delete, Option-cases, Bool-cases, nat_beq_iff, length-append,
}
use wispdeck.Wispist.Types.{Change}
use wispdeck.Wispist.Hub.{HubEvent, event_change, Channel, close, offer, publish_all}
use wispdeck.Wispist.Hub.Channels.{
  Subscriptions, IsUnique, is_open, has, IsOpen, IsOpen-tail, IsUnique-delete,
}

abbrev pub fits : ℕ → Option Channel → Bool
fits size none = true
fits size (some channel) = leb (length channel.queue) size

unfoldable pub has_id : ℕ → Subscriptions → Bool
has_id id values = has id values

-- What `offer` makes of an open channel.
pub record Offered (size : ℕ) (old new : Channel) (keeps : Bool) : Type 0 where
  pub stays : keeps ≡ true → is_open (some new) ≡ true
  pub bounded : fits size (some old) ≡ true → fits size (some new) ≡ true

offer-Offered :
    (size : ℕ) (event : HubEvent) (channel : Channel)
    → channel.closed ≡ false
    → (new : Channel) × (keeps : Bool) × (offer size event channel ≡ some (new, keeps))
      × Offered size channel new keeps
unfolding offer close
offer-Offered size event channel opened = elim (Bool-cases (leb size (length channel.queue))) [
  | inl full ↦ (
    record channel { closed = true },
    false,
    ground (arith, full),
    record { stays = λ keeps. ground arith; bounded = λ fit. fit },
  )
  | inr free ↦ (
    record channel { queue = channel.queue ++ event ∷ [] },
    true,
    ground (arith, free),
    record {
      stays = λ keeps. ground (arith, opened);
      bounded = λ fit. ground (arith, free, length-append channel.queue (event ∷ []));
    },
  )
]

-- What `publish_all` does, over `list`, to the subscriptions and the channels.
pub record PublishDone (size : ℕ) (list : Subscriptions) (values : Subscriptions)
    (old : Assoc ℕ Channel) (left : Subscriptions) (new : Assoc ℕ Channel) : Type 0 where
  pub fewer : (id : ℕ) → has id left ≡ true → has id values ≡ true
  pub unique : IsUnique values → IsUnique left
  pub stays :
      (id : ℕ)
      → has id left ≡ true
      → is_open (lookup id old) ≡ true
      → is_open (lookup id new) ≡ true
  pub kept : (id : ℕ) → has id list ≡ false → lookup id new ≡ lookup id old
  pub bounded : (id : ℕ) → fits size (lookup id old) ≡ true → fits size (lookup id new) ≡ true

unfoldable pub Published : ℕ → Change → Subscriptions → Subscriptions → Assoc ℕ Channel → Type 0
Published size change list values channels =
    (left : Subscriptions) × (new : Assoc ℕ Channel) × (publish_all size change list
        (values, channels)
      ≡ some (left, new))
    × PublishDone size list values channels left new

IsUnique-kept :
    (keeps : Bool) (id : ℕ) (values : Subscriptions)
    → IsUnique values
    → IsUnique (if keeps then values else delete id values)
IsUnique-kept true id values unique = unique
IsUnique-kept false id values unique = IsUnique-delete id values unique

IsOpen-skip :
    (id : ℕ) (collections : List Text) (rest : Subscriptions) (channels : Assoc ℕ Channel)
    → lookup id rest ≡ none
    → IsOpen ((id, collections) ∷ rest) channels
    → IsOpen rest channels
unfolding lookup
IsOpen-skip id collections rest channels fresh opened j listed =
    ground (arith, opened j, nat_beq_iff id j)

pub publish_all-Published :
    (size : ℕ) (change : Change) (list values : Subscriptions) (channels : Assoc ℕ Channel)
    → IsUnique list
    → IsOpen list channels
    → Published size change list values channels
unfolding Published publish_all IsUnique lookup
publish_all-Published size change [] values channels unique opened = (
  values,
  channels,
  refl,
  record {
    fewer = λ id h. h;
    unique = λ u. u;
    stays = λ id h o. o;
    kept = λ id h. refl;
    bounded = λ id h. h;
  },
)
publish_all-Published size change ((id, collections) ∷ rest) values channels (fresh, unique)
      opened =
    elim (Bool-cases (exists (λ c. c == change.collection) collections)) [
      | inr unwanted ↦
          let (left, new, run, done) =
            publish_all-Published size change rest values channels unique
              (IsOpen-skip id collections rest channels fresh opened) in
          (
            left,
            new,
            ground (arith, unwanted, run),
            record {
              fewer = done.fewer;
              unique = done.unique;
              stays = done.stays;
              kept = λ j free. ground (arith, done.kept j, nat_beq_iff id j);
              bounded = done.bounded;
            },
          )
      | inl wanted ↦ elim (Option-cases (lookup id channels)) [
        | inl absent ↦ ground (arith, opened id, nat_beq_iff id id, absent)
        | inr (channel, found) ↦
            let (channel', keeps, offered, state) =
              offer-Offered size (event_change change) channel
                (ground (arith, opened id, nat_beq_iff id id, found)) in
            let values' = if keeps then values else delete id values in
            let (left, new, run, done) =
              publish_all-Published size change rest values' (insert id channel' channels) unique
                (IsOpen-tail id collections rest channels channel' fresh opened) in
            (
              left,
              new,
              ground (arith, wanted, found, offered, run),
              record {
                fewer = λ j h.
                    ground (arith, done.fewer j, lookup-delete id j values, nat_beq_iff id j);
                unique = λ u. done.unique (IsUnique-kept keeps id values u);
                stays = λ j h o. ground (
                  arith,
                  done.stays j h,
                  done.fewer j h,
                  state.stays,
                  lookup-insert id j channel' channels,
                  lookup-delete id j values,
                  nat_beq_iff id j,
                );
                kept = λ j free.
                    ground
                      (arith, done.kept j, nat_beq_iff id j, lookup-insert id j channel' channels);
                bounded = λ j fit. ground (
                  arith,
                  done.bounded j,
                  state.bounded,
                  found,
                  lookup-insert id j channel' channels,
                  nat_beq_iff id j,
                );
              },
            )
      ]
    ]
