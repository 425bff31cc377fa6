-- ===== src/Web/Dashboard/Queue.antt =====
-- The queue of a dashboard's client against its specification, the set of what was asked for.
use hosthalla.Base.{
  ℕ, zero, suc, ◌+◌, ◌*◌, ◌≤◌, ◌≡◌, refl, ap, ◌∙◌, Bool, true, false, ◌||◌, List, [], ◌∷◌, ◌++◌,
  any, contains, length, length-append, nat_eq, ltb, arith, Bool-cases, inl, inr,
}
use hosthalla.Model.{Uuid}
use hosthalla.Web.Dashboard.{
  DashboardUpdate, merge_dashboard_updates, client_capacity, Client, new_client, take_from,
  take_up_to, Gaps, send_or, drop_update, merge_oldest, signal_full, signal_client,
}

-- What an update can ask to be shown anew.
pub data Part : Type 0 where
  clock overview hosts rows metrics : Part
  row : Uuid → Part
  metric : Uuid → Part

abbrev pub asks : Part → DashboardUpdate → Bool
asks clock u = u.sections.generated_at
asks overview u = u.sections.overview
asks hosts u = u.sections.hosts
asks rows u = u.sections.host_rows
asks metrics u = u.sections.host_metrics
asks (row id) u = contains u.host_row_ids id
asks (metric id) u = contains u.host_metric_ids id

-- What happens to a client: it is signalled, or takes the next update from its channel.
pub data Move : Type 0 where
  signal : Gaps → DashboardUpdate → Move
  take_next : Move

abbrev pub move : Move → Client → Client
move (signal gaps u) c = signal_client gaps u c
move take_next c = take_from c.channel c

unfoldable pub moves : List Move → Client → Client
moves [] c = c
moves (m ∷ ms) c = moves ms (move m c)

-- The specification: the set of all parts that were asked for, which is never made smaller.
unfoldable pub asked : List Move → Part → Bool
asked [] p = false
asked (signal gaps u ∷ ms) p = asks p u || asked ms p
asked (take_next ∷ ms) p = asked ms p

contains-append :
    (xs ys : List Uuid) (id : Uuid) → contains (xs ++ ys) id ≡ (contains xs id || contains ys id)
contains-append [] ys id = refl
contains-append (x ∷ xs) ys id = ground (arith, contains-append xs ys id)

asks-merge :
    (p : Part) (l r : DashboardUpdate)
    → asks p (merge_dashboard_updates l r) ≡ (asks p l || asks p r)
unfolding merge_dashboard_updates
asks-merge clock l r = refl
asks-merge overview l r = refl
asks-merge hosts l r = refl
asks-merge rows l r = refl
asks-merge metrics l r = refl
asks-merge (row id) l r = contains-append l.host_row_ids r.host_row_ids id
asks-merge (metric id) l r = contains-append l.host_metric_ids r.host_metric_ids id

any-append :
    (p : DashboardUpdate → Bool) (us vs : List DashboardUpdate)
    → any p (us ++ vs) ≡ (any p us || any p vs)
any-append p [] vs = refl
any-append p (u ∷ us) vs = ground (arith, any-append p us vs)

-- What was asked for is with the client, in its channel, or dropped.
abbrev pub held : Part → Client → Bool
held p c = any (asks p) c.taken || any (asks p) c.channel

abbrev pub lost : Part → Client → Bool
lost p c = any (asks p) c.dropped

abbrev known : Part → Client → Bool
known p c = held p c || lost p c

-- The channel is within its capacity, and for each update that was dropped the client took 8.
record IsSound (spare : ℕ) (c : Client) : Type 0 where
  room : length c.channel + spare ≤ client_capacity
  paid : client_capacity * length c.dropped ≤ length c.taken

known-take_from :
    (p : Part) (c : Client) (channel : List DashboardUpdate)
    → c.channel ≡ channel
    → known p (take_from channel c) ≡ known p c
known-take_from p c [] e = refl
known-take_from p c (u ∷ rest) e =
    ground (arith, any-append (asks p) c.taken (u ∷ []), ap (any (asks p)) e)

known-take_up_to : (p : Part) (n : ℕ) (c : Client) → known p (take_up_to n c) ≡ known p c
unfolding take_up_to
known-take_up_to p zero c = refl
known-take_up_to p (suc n) c =
    known-take_up_to p n (take_from c.channel c) ∙ known-take_from p c c.channel refl

-- A reception moves one update and drops none.
record Received (c d : Client) : Type 0 where
  total : length d.taken + length d.channel ≡ length c.taken + length c.channel
  shorter : length d.channel ≤ length c.channel
  dropped : length d.dropped ≡ length c.dropped

take_from-Received :
    (c : Client) (channel : List DashboardUpdate)
    → c.channel ≡ channel
    → Received c (take_from channel c)
take_from-Received c [] e = record { total = refl; shorter = omega arith; dropped = refl }
take_from-Received c (u ∷ rest) e = record {
  total = omega (arith, length-append c.taken (u ∷ []), ap length e);
  shorter = omega (arith, ap length e);
  dropped = refl;
}

take_up_to-Received : (n : ℕ) (c : Client) → Received c (take_up_to n c)
unfolding take_up_to
take_up_to-Received zero c = record { total = refl; shorter = omega arith; dropped = refl }
take_up_to-Received (suc n) c =
    let one = take_from-Received c c.channel refl in
    let rest = take_up_to-Received n (take_from c.channel c) in
    record {
      total = rest.total ∙ one.total;
      shorter = omega (arith, rest.shorter, one.shorter);
      dropped = rest.dropped ∙ one.dropped;
    }

Received-IsSound : (spare : ℕ) (c d : Client) → Received c d → IsSound spare c → IsSound spare d
Received-IsSound spare c d r h = record {
  room = omega (arith, r.shorter, h.room);
  paid = omega (arith, r.total, r.shorter, r.dropped, h.paid);
}

known-drop :
    (p : Part) (u : DashboardUpdate) (c : Client)
    → known p (drop_update u c) ≡ (known p c || asks p u)
known-drop p u c = ground (arith, any-append (asks p) c.dropped (u ∷ []))

known-send :
    (p : Part) (u : DashboardUpdate) (c : Client) (otherwise : Client → Client)
    → known p (otherwise c) ≡ (known p c || asks p u)
    → known p (send_or otherwise u c) ≡ (known p c || asks p u)
known-send p u c otherwise h = elim (Bool-cases (ltb (length c.channel) client_capacity)) [
  | inl room ↦ rw room (ground (arith, any-append (asks p) c.channel (u ∷ [])))
  | inr full ↦ rw full h
]

known-merge :
    (p : Part) (second : ℕ) (u : DashboardUpdate) (channel : List DashboardUpdate) (c : Client)
    → c.channel ≡ channel
    → known p (merge_oldest second u channel c) ≡ (known p c || asks p u)
known-merge p second u [] c e = known-drop p u c
known-merge p second u (pending ∷ rest) c e =
    let merged = merge_dashboard_updates pending u in
    let left : Client = record c { channel = rest } in
    let after = take_up_to second left in
    known-send p merged after (drop_update merged) (known-drop p merged after)
    ∙ ground (arith, known-take_up_to p second left, asks-merge p pending u, ap (any (asks p)) e)

known-signal_client :
    (p : Part) (gaps : Gaps) (u : DashboardUpdate) (c : Client)
    → known p (signal_client gaps u c) ≡ (known p c || asks p u)
unfolding signal_client
known-signal_client p gaps u c =
    let after = take_up_to gaps.first c in
    known-send p u c (λ full. signal_full gaps u (take_up_to gaps.first full))
      (known-merge p gaps.second u after.channel after refl
        ∙ ap (λ b. b || asks p u) (known-take_up_to p gaps.first c))

-- After the oldest update came out there is a place for the merged one.
merge_oldest-IsSound :
    (second : ℕ) (u : DashboardUpdate) (channel : List DashboardUpdate) (c : Client)
    → c.channel ≡ channel
    → IsSound 0 c
    → client_capacity * length c.dropped + client_capacity ≤ length c.taken + length c.channel
    → IsSound 0 (merge_oldest second u channel c)
merge_oldest-IsSound second u [] c e h full = record {
  room = h.room;
  paid = omega (arith, full, ap length e, length-append c.dropped (u ∷ []));
}
merge_oldest-IsSound second u (pending ∷ rest) c e h full =
    let merged = merge_dashboard_updates pending u in
    let left : Client = record c { channel = rest } in
    let spare : IsSound 1 left = record {
      room = omega (arith, h.room, ap length e);
      paid = h.paid;
    } in
    let after = take_up_to second left in
    let sound = Received-IsSound 1 left after (take_up_to-Received second left) spare in
    let fits : ltb (length after.channel) client_capacity ≡ true = ground (arith, sound.room) in
    rw fits (record {
      room = omega (arith, sound.room, length-append after.channel (merged ∷ []));
      paid = sound.paid;
    })

signal_client-IsSound :
    (gaps : Gaps) (u : DashboardUpdate) (c : Client)
    → IsSound 0 c
    → IsSound 0 (signal_client gaps u c)
unfolding signal_client
signal_client-IsSound gaps u c h = elim (Bool-cases (ltb (length c.channel) client_capacity)) [
  | inl room ↦
      rw room
        (record { room = ground (arith, room, length-append c.channel (u ∷ [])); paid = h.paid })
  | inr full ↦
      let after = take_up_to gaps.first c in
      let r = take_up_to-Received gaps.first c in
      let eight : client_capacity ≤ length c.channel = ground (arith, full) in
      rw full (
        merge_oldest-IsSound gaps.second u after.channel after refl (Received-IsSound 0 c after r h)
          (omega (arith, r.total, r.dropped, h.paid, eight)))
]

move-IsSound : (m : Move) (c : Client) → IsSound 0 c → IsSound 0 (move m c)
move-IsSound (signal gaps u) c h = signal_client-IsSound gaps u c h
move-IsSound take_next c h =
    Received-IsSound 0 c (take_from c.channel c) (take_from-Received c c.channel refl) h

moves-IsSound : (ms : List Move) (c : Client) → IsSound 0 c → IsSound 0 (moves ms c)
unfolding moves
moves-IsSound [] c h = h
moves-IsSound (m ∷ ms) c h = moves-IsSound ms (move m c) (move-IsSound m c h)

known-moves :
    (p : Part) (ms : List Move) (c : Client) → known p (moves ms c) ≡ (known p c || asked ms p)
unfolding moves asked
known-moves p [] c = ground arith
known-moves p (signal gaps u ∷ ms) c =
    known-moves p ms (signal_client gaps u c) ∙ ground (arith, known-signal_client p gaps u c)
known-moves p (take_next ∷ ms) c =
    known-moves p ms (take_from c.channel c)
    ∙ ap (λ b. b || asked ms p) (known-take_from p c c.channel refl)

-- A client is signalled by one goroutine at a time, and takes updates from its channel whenever it
-- wants, between the selects of `signalClient` too. Then the updates it took, those in its channel
-- and those that `signalClient` dropped ask together for exactly the parts of the page that the
-- signals asked for; the channel never holds more than 8; and for each update that was dropped the
-- client has taken 8, so that none is dropped before that.
pub moves-asked :
    (ms : List Move) (p : Part)
    → ((held p (moves ms new_client) || lost p (moves ms new_client)) ≡ asked ms p)
      × (length (moves ms new_client).channel ≤ client_capacity)
      × (client_capacity * length (moves ms new_client).dropped
          ≤ length (moves ms new_client).taken)
moves-asked ms p =
    let sound = moves-IsSound ms new_client (record { room = omega arith; paid = omega arith }) in
    (known-moves p ms new_client, omega (arith, sound.room), sound.paid)
