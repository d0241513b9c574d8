-- ===== src/Redis/Session/Channels.antt =====
-- cmd/subscribe.rs: which channels a session is subscribed to, and how it counts them.
use reverse_rewrite.Common.{
  ℕ, suc, ◌++◌, if◌then◌else◌, ◌+◌, ◌≡◌, refl, false, not, ◌&&◌, ◌||◌, List, [], ◌∷◌, arith, length,
  length-append,
}
use reverse_rewrite.Common.Text.{Bytes, bytes_eq, codes}
use reverse_rewrite.Common.Order.{bytes_eq_iff}
use reverse_rewrite.Redis.Cmd.{unsubscribe}
use reverse_rewrite.Redis.Session.{
  StreamMap, Session, make_subscribe_frame, is_key, respond, unsubscribe_all, channels_or_all,
  perform, make_unsubscribe_frame,
}
use reverse_rewrite.Redis.Frame.{Frame, array, bulk, integer, cons, nil}
use reverse_rewrite.Redis.Cmd.Apply.{listeners}
use reverse_rewrite.Redis.Db.{Broadcast, Shared}
use reverse_rewrite.Redis.Db

-- How often a channel is named.
unfoldable pub occurrences : Bytes → List Bytes → ℕ
occurrences channel [] = 0
occurrences channel (c ∷ cs) =
    let rest = occurrences channel cs in if bytes_eq channel c then suc rest else rest

module _ (bc : Broadcast) (sm : StreamMap) where
  keys-unsubscribe_all :
      (cs : List Bytes) (s : Session sm.Map) (j : Bytes)
      → is_key j (sm.keys (unsubscribe_all bc sm cs s).subscriptions)
        ≡ (not (is_key j cs) && is_key j (sm.keys s.subscriptions))
  unfolding unsubscribe_all
  keys-unsubscribe_all [] s j = refl
  keys-unsubscribe_all (c ∷ cs) s j = ground (
    arith,
    keys-unsubscribe_all cs
        (respond bc sm (make_unsubscribe_frame c (length (sm.keys (sm.remove c s.subscriptions))))
          (record s { subscriptions = sm.remove c s.subscriptions }))
        j,
    sm.keys-remove c j s.subscriptions,
    bytes_eq_iff c j,
    bytes_eq_iff j c,
  )

  written-unsubscribe_all :
      (cs : List Bytes) (s : Session sm.Map)
      → length (unsubscribe_all bc sm cs s).written ≡ length s.written + length cs
  unfolding unsubscribe_all
  written-unsubscribe_all [] s = ground arith
  written-unsubscribe_all (c ∷ cs) s =
      let left = sm.remove c s.subscriptions in
      let x = make_unsubscribe_frame c (length (sm.keys left)) in
      omega (
        arith,
        written-unsubscribe_all cs (respond bc sm x (record s { subscriptions = left })),
        length-append s.written (x ∷ []),
      )

  -- UNSUBSCRIBE leaves the channels that it names, or every channel when it names none, stays
  -- subscribed to all the others, and sends one confirmation for each channel that it leaves.
  pub keys-perform :
      (channels : List Bytes) (s : Session sm.Map) (j : Bytes)
      → (is_key j (sm.keys (perform bc sm (unsubscribe channels) s).subscriptions) ≡ (
          not (is_key j (channels_or_all bc sm channels s)) && is_key j (sm.keys s.subscriptions)))
        × (is_key j (sm.keys (perform bc sm (unsubscribe []) s).subscriptions) ≡ false)
        × (length (perform bc sm (unsubscribe channels) s).written
            ≡ length s.written + length (channels_or_all bc sm channels s))
  unfolding perform
  keys-perform channels s j = (
    keys-unsubscribe_all (channels_or_all bc sm channels s) s j,
    ground (arith, keys-unsubscribe_all (sm.keys s.subscriptions) s j),
    written-unsubscribe_all (channels_or_all bc sm channels s) s,
  )

  -- the frame of a confirmation
  abbrev pub confirmation : Bytes → ℕ → Frame
  confirmation c held =
      array (cons (bulk (codes "subscribe")) (cons (bulk c) (cons (integer held) nil)))

  -- The confirmations for some channels in a row, of a client that holds n channels, those of `seen`:
  -- each names its channel, and counts the channels that the client holds by then.
  abbrev pub confirmations : List Bytes → ℕ → List Bytes → List Frame
  confirmations seen n [] = []
  confirmations seen n (c ∷ cs) =
      let held = if is_key c seen then n else suc n in
      confirmation c held ∷ confirmations (c ∷ seen) held cs

  -- What a session and the database are after the session subscribed to some channels.
  pub record Joined (cs : List Bytes) (s s' : Session sm.Map) (sh sh' : Shared bc.Sender)
      : Type 0 where
    pub keys :
        (j : Bytes)
        → is_key j (sm.keys s'.subscriptions) ≡ (is_key j cs || is_key j (sm.keys s.subscriptions))
    pub replies :
        let held = sm.keys s.subscriptions in
        s'.written ≡ s.written ++ confirmations held (length held) cs
    pub receivers : (j : Bytes) → listeners bc j sh' ≡ listeners bc j sh + occurrences j cs
    pub entries : sh'.state.entries ≡ sh.state.entries
    pub fine : sh'.poisoned ≡ false

  joined_one : Bytes → Session sm.Map → Session sm.Map
  joined_one c s =
      let m = sm.insert c s.subscriptions in
      respond bc sm (make_subscribe_frame c (length (sm.keys m))) (record s { subscriptions = m })
