-- ===== src/Arp/Exchange.antt =====
-- arp.c at both ends of a link: a request is answered, and the answer completes the entry that asked.
use mathlib.Core.List.{append-nil}
use protocol_stack.Arp.Resolve.Laws.{arp_resolve-entry, arp_resolve-new, pending}
use protocol_stack.Arp.Table.Change.{resolved, flushed, IsChanged}
use protocol_stack.Arp.Resolve.{found, query, arp_resolve}
use protocol_stack.Arp.Table.Lookup.{entry_of-patrol, entry_of, IsUnique}
use protocol_stack.Arp.Table.Wf.{IsTable}
use protocol_stack.Ethernet.{
  ethernet_addr_broadcast, ethernet_type_arp, ethernet_type_ip, ethernet_addr_any,
}
use protocol_stack.Arp.Rx.Laws.{done-IsTable, arp_rx-unknown, arp_rx-known, IsTarget, answer}
use protocol_stack.Arp.Table.{Transmit, ArpEntry, Arp, is_expired}
use protocol_stack.Base.{
  Option-cases, subst, sym, inr, inl, ◌∙◌, ap, Option, ◌≢◌, ◌∷◌, none, ◌+◌, [], refl, length, ◌≤◌,
  some, length-take, ◌^◌, take_all, ◌<◌, take, ℕ, ◌≡◌, arith, List, ◌++◌, true,
}
use protocol_stack.Util.ByteOrder.{ntoh16, Endian}
use protocol_stack.Util.ByteOrder.Laws.{ntoh16-hton16}
use protocol_stack.Net.{netif_family_ipv4, netdev_get_netif, Netif, Netdev}
use protocol_stack.Arp.Message.{
  arp_send_request, arp_send_reply, arp_op_reply, arp_op_request, ArpMessage, write_message,
  read_message, own_message,
}
use protocol_stack.Arp.Message.RoundTrip.{own-Fits, Fits, read-write}
use protocol_stack.Arp.Rx.{done, arp_rx, arp_patrol, is_valid_message}

-- A message that `own_message` fills in passes the tests of the receiver, with anything after it.
own_message-valid :
    (m : Endian) (dev : Netdev) (netif : Netif) (op : ℕ) (tha : List ℕ) (tpa : ℕ) (rest : List ℕ)
    → Fits (own_message m dev netif op tha tpa)
    → (is_valid_message m (write_message m (own_message m dev netif op tha tpa) ++ rest) ≡ true)
      × (read_message m (write_message m (own_message m dev netif op tha tpa) ++ rest)
          ≡ own_message m dev netif op tha tpa)
unfolding is_valid_message own_message
own_message-valid m dev netif op tha tpa rest fits = (
  rw ((read-write m (own_message m dev netif op tha tpa) rest fits).0) (
      ground (
        arith,
        (read-write m (own_message m dev netif op tha tpa) rest fits).1,
        ntoh16-hton16 m 1 (omega arith),
        ntoh16-hton16 m 0x0800 (omega arith),
      )),
  (read-write m (own_message m dev netif op tha tpa) rest fits).0,
)

-- An entry whose time is not over stays through the patrol.
entry_of-arp_patrol :
    (k now : ℕ) (st : Arp) (e : ArpEntry)
    → IsUnique st.table
    → entry_of k st.table ≡ some e
    → now ≤ e.timestamp + 300
    → entry_of k (arp_patrol now st).table ≡ some e
unfolding arp_patrol is_expired
entry_of-arp_patrol k now st e unique known fresh =
    ground (arith, entry_of-patrol k now st.table unique)

take_six : (xs : List ℕ) → take 6 (take 6 xs) ≡ take 6 xs
take_six xs = take_all 6 (take 6 xs) (omega (arith, length-take 6 xs))

answer_request :
    (m : Endian) (dev asker : Netdev) (netif asking : Netif) (tha : List ℕ)
    → netdev_get_netif dev netif_family_ipv4 ≡ some netif
    → answer m dev (own_message m asker asking arp_op_request tha netif.unicast)
      ≡ arp_send_reply m dev netif (take 6 asker.addr) asking.unicast (take 6 asker.addr)
unfolding own_message
answer_request m dev asker netif asking tha e = ground (arith, ntoh16-hton16 m 1 (omega arith))

answer_reply :
    (m : Endian) (dev sender : Netdev) (netif : Netif) (tha : List ℕ) (tpa : ℕ)
    → answer m dev (own_message m sender netif arp_op_reply tha tpa) ≡ []
unfolding own_message
answer_reply m dev sender netif tha tpa = ground (arith, ntoh16-hton16 m 2 (omega arith))

own_spa :
    (m : Endian) (dev : Netdev) (netif : Netif) (op : ℕ) (tha : List ℕ) (tpa : ℕ)
    → ((own_message m dev netif op tha tpa).spa ≡ netif.unicast)
      × ((own_message m dev netif op tha tpa).sha ≡ take 6 dev.addr)
      × ((own_message m dev netif op tha tpa).tpa ≡ tpa)
unfolding own_message
own_spa m dev netif op tha tpa = (refl, refl, refl)

-- A call that asked has entered the address as pending.
arp_resolve-pending :
    (m : Endian) (now : ℕ) (dev : Netdev) (netif : Netif) (pa : ℕ) (p : List ℕ) (d : ℕ)
    (st st' : Arp) (out : List Transmit)
    → IsTable st.table
    → entry_of pa st.table ≡ none
    → netif.dev ≡ some d
    → arp_resolve m now true dev netif pa (some p) st ≡ query st' out
    → IsChanged pa (pending now pa (some p) netif) st.table st'.table
arp_resolve-pending m now dev netif pa p d st st' out h new has_dev asked =
    elim (arp_resolve-new m now dev netif pa (some p) st h new (λ e. cc (e, has_dev))) [
      | inl full ↦ absurd (cc (full.1, asked))
      | inr (st'', step, change) ↦
          let same : st'' ≡ st' = cc (step, asked) in
          subst (λ (s : Arp). IsChanged pa (pending now pa (some p) netif) st.table s.table) same
            change
    ]

module _ (m : Endian) (asker target : Netdev) (asking netif : Netif) (rest : List ℕ)
    (asking_fits : asking.unicast < 2 ^ 32) (netif_fits : netif.unicast < 2 ^ 32)
    (asker_long : 6 ≤ length asker.addr) (target_long : 6 ≤ length target.addr) where
  abbrev request : ArpMessage
  request = own_message m asker asking arp_op_request ethernet_addr_any netif.unicast

  abbrev reply : ArpMessage
  reply = own_message m target netif arp_op_reply (take 6 asker.addr) asking.unicast

  request-Fits : Fits request
  request-Fits =
      own-Fits m asker asking 1 ethernet_addr_any netif.unicast (omega arith) asking_fits netif_fits
        asker_long refl

  reply-Fits : Fits reply
  reply-Fits =
      own-Fits m target netif 2 (take 6 asker.addr) asking.unicast (omega arith) netif_fits
        asking_fits target_long (omega (arith, length-take 6 asker.addr))

  request-done :
      (now : ℕ) (st : Arp)
      → IsTable st.table
      → netdev_get_netif target netif_family_ipv4 ≡ some netif
      → (st' : Arp) × (before : List Transmit) × (arp_rx m now
            (write_message m request ++ rest)
            target
            st
          ≡ done st' (
              before
              ++ arp_send_reply m target netif
                  (take 6 asker.addr)
                  asking.unicast
                  (take 6 asker.addr)))
        × IsTable st'.table
  request-done now st h here =
      let packet = write_message m request ++ rest in
      let (valid, read) =
        own_message-valid m asker asking 1 ethernet_addr_any netif.unicast rest request-Fits in
      let replied : answer m target (read_message m packet)
          ≡ arp_send_reply m target netif (take 6 asker.addr) asking.unicast (take 6 asker.addr) =
        ap (answer m target) read
        ∙ answer_request m target asker netif asking ethernet_addr_any here in
      let ours : IsTarget target (read_message m packet) = (
        netif,
        here,
        sym (
            ap (λ (x : ArpMessage). x.tpa) read
            ∙ (own_spa m asker asking 1 ethernet_addr_any netif.unicast).2),
      ) in
      elim (Option-cases (entry_of (read_message m packet).spa (arp_patrol now st).table)) [
        | inl new ↦
            let (st', step, what) = (arp_rx-unknown m now packet target st valid h new).0 ours in
            let step' = step ∙ ap (done st') replied in
            (st', [], step', done-IsTable m now packet target st st' _ h step')
        | inr (e, known) ↦
            let (t', step, change) = arp_rx-known m now packet target st valid h e known in
            let st' : Arp = record (arp_patrol now st) { table = t' } in
            let before = flushed (read_message m packet).sha e in
            (
              st',
              before,
              step ∙ ap (λ (x : List Transmit). done st' (before ++ x)) replied,
              change.kept,
            )
      ]

  reply_sent :
      (r : Transmit) × (arp_send_reply m target netif
          (take 6 asker.addr)
          asking.unicast
          (take 6 asker.addr)
        ≡ r ∷ [])
      × (r.dev ≡ target.id)
      × (r.type ≡ ethernet_type_arp)
      × (r.dst ≡ take 6 asker.addr)
      × (is_valid_message m r.packet ≡ true)
      × (read_message m r.packet ≡ reply)
  unfolding arp_send_reply
  reply_sent =
      let (valid, read) =
        own_message-valid m target netif 2 (take 6 asker.addr) asking.unicast [] reply-Fits in
      let bytes = write_message m reply in
      let whole : bytes ++ [] ≡ bytes = append-nil bytes in
      (
        record {
          dev = target.id;
          type = ethernet_type_arp;
          packet = bytes;
          dst = take 6 asker.addr;
        },
        ap
            (λ (tha : List ℕ).
              record {
                dev = target.id;
                type = ethernet_type_arp;
                packet =
                    write_message m (own_message m target netif arp_op_reply tha asking.unicast);
                dst = take 6 asker.addr;
              }
              ∷ [])
            (take_six asker.addr),
        refl,
        refl,
        refl,
        ap (is_valid_message m) (sym whole) ∙ valid,
        ap (read_message m) (sym whole) ∙ read,
      )

  -- `arp_send_request` broadcasts one packet. With any padding, the device that has the address takes it,
  -- whatever its table holds, and sends, after what else there is to send, one packet to the asker: a valid
  -- message with the operation "reply", its own addresses as sender's and the asker's as target's.
  pub arp_rx-request :
      (now : ℕ) (st : Arp)
      → IsTable st.table
      → netdev_get_netif target netif_family_ipv4 ≡ some netif
      → (q r : Transmit) × (arp_send_request m asker asking (some netif.unicast) ≡ q ∷ [])
        × (q.dev ≡ asker.id)
        × (q.type ≡ ethernet_type_arp)
        × (q.dst ≡ ethernet_addr_broadcast)
        × (st' : Arp) × (before : List Transmit) × (arp_rx m now (q.packet ++ rest) target st
            ≡ done st' (before ++ (r ∷ [])))
        × IsTable st'.table
        × (r.dev ≡ target.id)
        × (r.type ≡ ethernet_type_arp)
        × (r.dst ≡ take 6 asker.addr)
        × (is_valid_message m r.packet ≡ true)
        × (ntoh16 m (read_message m r.packet).op ≡ arp_op_reply)
        × ((read_message m r.packet).sha ≡ take 6 target.addr)
        × ((read_message m r.packet).spa ≡ netif.unicast)
        × ((read_message m r.packet).tha ≡ take 6 asker.addr)
        × ((read_message m r.packet).tpa ≡ asking.unicast)
  unfolding arp_send_request own_message
  arp_rx-request now st h here =
      let (st', before, step, table) = request-done now st h here in
      let (r, reply_is, dev, type, dst, valid, read) = reply_sent in
      (
        record {
          dev = asker.id;
          type = ethernet_type_arp;
          packet = write_message m request;
          dst = ethernet_addr_broadcast;
        },
        r,
        refl,
        refl,
        refl,
        refl,
        st',
        before,
        step ∙ ap (λ (out : List Transmit). done st' (before ++ out)) reply_is,
        table,
        dev,
        type,
        dst,
        valid,
        ap (λ (x : ArpMessage). ntoh16 m x.op) read ∙ ntoh16-hton16 m 2 (omega arith),
        ap (λ (x : ArpMessage). x.sha) read,
        ap (λ (x : ArpMessage). x.spa) read,
        ap (λ (x : ArpMessage). x.tha) read,
        ap (λ (x : ArpMessage). x.tpa) read,
      )

  -- The reply to a pending entry's request, if it comes before the entry's time is over: the packet that
  -- waits is sent to the address in the reply by the interface's device, nothing else is sent, and from
  -- then on `arp_resolve` returns that address, unless it is all zeros.
  pub arp_rx-reply :
      (now later : ℕ) (p : List ℕ) (d : ℕ) (st st' : Arp) (out : List Transmit)
      → IsTable st.table
      → entry_of netif.unicast st.table ≡ none
      → asking.dev ≡ some d
      → arp_resolve m now true asker asking netif.unicast (some p) st ≡ query st' out
      → later ≤ now + 300
      → (st'' : Arp) × (arp_rx m later (write_message m reply ++ rest) asker st'
          ≡ done st'' (
              record { dev = d; type = ethernet_type_ip; packet = p; dst = take 6 target.addr }
              ∷ []))
        × (take 6 target.addr ≢ ethernet_addr_any
            → (at : ℕ) (packet : Option (List ℕ))
            → arp_resolve m at true asker asking netif.unicast packet st''
              ≡ found (take 6 target.addr) st'')
  arp_rx-reply now later p d st st' out h new has_dev asked in_time =
      let packet = write_message m reply ++ rest in
      let b = netif.unicast in
      let (valid, read) =
        own_message-valid m target netif 2 (take 6 asker.addr) asking.unicast rest reply-Fits in
      let change = arp_resolve-pending m now asker asking b p d st st' out h new has_dev asked in
      let e = pending now b (some p) asking in
      let spa_eq : (read_message m packet).spa ≡ b =
        ap (λ (x : ArpMessage). x.spa) read
        ∙ (own_spa m target netif 2 (take 6 asker.addr) asking.unicast).0 in
      let sha_eq : (read_message m packet).sha ≡ take 6 target.addr =
        ap (λ (x : ArpMessage). x.sha) read
        ∙ (own_spa m target netif 2 (take 6 asker.addr) asking.unicast).1 in
      let waits : entry_of b st'.table ≡ some e = ground (arith, change.lookup b) in
      let kept : entry_of b (arp_patrol later st').table ≡ some e =
        entry_of-arp_patrol b later st' e change.kept.unique waits in_time in
      let (t', step, change') =
        arp_rx-known m later packet asker st' valid change.kept e (rw spa_eq kept) in
      let sha = (read_message m packet).sha in
      let st'' : Arp = record (arp_patrol later st') { table = t' } in
      let quiet : answer m asker (read_message m packet) ≡ [] =
        ap (answer m asker) read
        ∙ answer_reply m asker target netif (take 6 asker.addr) asking.unicast in
      let ha_eq : take 6 sha ≡ take 6 target.addr = ap (take 6) sha_eq ∙ take_six target.addr in
      let sent : flushed sha e
          ≡ record { dev = d; type = ethernet_type_ip; packet = p; dst = take 6 target.addr } ∷ [] =
        ground (arith, has_dev, ha_eq) in
      let all_sent : flushed sha e ++ answer m asker (read_message m packet)
          ≡ record { dev = d; type = ethernet_type_ip; packet = p; dst = take 6 target.addr } ∷ [] =
        ap (λ (x : List Transmit). flushed sha e ++ x) quiet ∙ append-nil (flushed sha e) ∙ sent in
      let entry : entry_of b t' ≡ some (resolved later sha e) =
        ground (arith, change'.lookup b, spa_eq) in
      (
        st'',
        step ∙ ap (done st'') all_sent,
        λ ne at queued.
            (arp_resolve-entry m at asker asking b queued st'' change'.kept true
                (resolved later sha e) entry).0
              (λ q. ne (sym ha_eq ∙ q))
            ∙ ap (λ (x : List ℕ). found x st'') ha_eq,
      )
