-- ===== src/Rpc/Exchange/Answered.antt =====
-- A client and a server on one connection: each call is answered.
use xuanqiong.Base.{
  ℕ, suc, ◌*◌, ◌^◌, ◌≤◌, ◌<◌, ◌≡◌, refl, sym, ap, ◌∙◌, subst, false, some, List, [], ◌∷◌, ◌++◌,
  length, arith,
}
use xuanqiong.Util.Input.{unread}
use xuanqiong.Util.Input.Inv
use xuanqiong.Util.Output.{OutputBuffer, unsent}
use xuanqiong.Util.Output.Inv.{IsValid}
use xuanqiong.Net.Connection.{Connection, closed}
use xuanqiong.Net.Poll.Kernel.{Positive}
use xuanqiong.Rpc.Codec.{Codec, Services}
use xuanqiong.Rpc.Codec.Contract.{Contract}
use xuanqiong.Rpc.Server
use xuanqiong.Rpc.Server.Loop
use xuanqiong.Rpc.Server.Requests.{AllServed, requests, responses}
use xuanqiong.Rpc.Server.Requests
use xuanqiong.Rpc.Server.Stop.{IsWriter}
use xuanqiong.Rpc.Server.Session.{requests_answered}
use xuanqiong.Rpc.Client.{Channel, Responses, with_conn, header_len}
use xuanqiong.Rpc.Client.Loop.{paused, recv_fn}
use xuanqiong.Rpc.Client.Replies.{AllReplies, Aligned, frames}
use xuanqiong.Rpc.Client.Handling.{responses_handled}
use xuanqiong.Rpc.Exchange.{Call, call_all, all_asked, all_replied, AllCalls, replies}
use xuanqiong.Rpc.Exchange.Calls.{
  call_all_lem, responses-frames, deliveries-replied, Listed-Pending, settled-below,
}
use xuanqiong.Rpc.Exchange.Table.{AllBelow}

length-asked :
    (codec : Codec) (id : ℕ) (cs : List Call) → length (all_asked codec id cs) ≡ length cs
unfolding all_asked
length-asked codec id [] = refl
length-asked codec id (c ∷ cs) = ap suc (length-asked codec (suc id) cs)

length-replied :
    (codec : Codec) (id : ℕ) (cs : List Call) → length (all_replied codec id cs) ≡ length cs
unfolding all_replied
length-replied codec id [] = refl
length-replied codec id (c ∷ cs) = ap suc (length-replied codec (suc id) cs)

module _ (codec : Codec) (services : Services) (messages : Responses) where
  calls-AllServed :
      (id : ℕ) (cs : List Call)
      → AllCalls codec services messages id cs
      → AllServed codec services (all_asked codec id cs)
  unfolding all_asked
  calls-AllServed id [] a = record {}
  calls-AllServed id (c ∷ cs) a = (
    record {
      head_short = a.0.head_short;
      body_short = a.0.body_short;
      parses = a.0.parses;
      magic = refl;
      version = refl;
      found = a.0.found;
      serves = a.0.serves;
    },
    calls-AllServed (suc id) cs a.1,
  )

  calls-AllReplies :
      (id : ℕ) (cs : List Call)
      → AllCalls codec services messages id cs
      → AllReplies codec messages (all_replied codec id cs)
  unfolding all_replied
  calls-AllReplies id [] a = record {}
  calls-AllReplies id (c ∷ cs) a = (
    record {
      head_short = a.0.back_short;
      body_short = a.0.reply_short;
      parses = a.0.back_parses;
      accepts = a.0.accepts;
    },
    calls-AllReplies (suc id) cs a.1,
  )

-- The kernel's pieces: so many bytes at each `async_read`, at least one at a time and in all at
-- least as many as there are.
abbrev pub Lasting : List ℕ → List ℕ → Type 0
Lasting ns input = Positive ns × (length input ≤ length ns)

-- An open connection where nothing is left over.
pub record IsIdle (c : Connection) : Type 0 where
  pub readable : Inv.IsValid c.read_buf
  pub writable : IsValid c.write_buf
  pub opened : closed c ≡ false
  pub nothing_unread : unread c.read_buf ≡ []
  pub nothing_unsent : unsent c.write_buf ≡ []

module _ (codec : Codec) (services : Services) (messages : Responses) (stack : ℕ → ℕ)
    (write : Connection → Connection × List ℕ) (contract : Contract codec)
    (writer : IsWriter write) where
  -- Let the protobuf runtime keep its contract with streams, and let the server's writing
  -- coroutine, when it is resumed, only give bytes off the front of the write buffer to the
  -- kernel. Take a client's channel and a server's connection, both open, with valid buffers and
  -- nothing unread or unsent, and a table of sessions whose ids are below the channel's next one;
  -- and calls whose messages are short, of methods that the server has and that reply to them,
  -- where both headers of each are parsed as what was printed and the caller's response message
  -- takes the reply. Let the frames of all the requests, and of all the responses, be fewer than
  -- 2 ^ 64 bytes, and let no length reach from one block into the next. Then the calls, made one
  -- after another, return; the server's `recv_fn`, given their bytes in any pieces, one byte at
  -- least at each `async_read` until all were read, comes back to where it waits for a header;
  -- and so does the client's, given in any such pieces the bytes that the server sent and has
  -- still to send, whatever was left of the client's write buffer, with four rounds for each call
  -- and one more. It has handed to each call's session, in the order of the calls, the reply to
  -- that call and nothing else; the table is as it was before the calls, nothing is unread at
  -- either end, and both connections are open.
  pub calls_answered :
      (cs : List Call) (h : Channel) (c : Connection) (fuel : ℕ) (ns ms : List ℕ) (w : OutputBuffer)
      → IsIdle h.conn
      → IsIdle c
      → AllBelow h.next_id h.sessions
      → AllCalls codec services messages h.next_id cs
      → let asks = all_asked codec h.next_id cs in
        let answers = all_replied codec h.next_id cs in
        Requests.Aligned c.read_buf.cur.begin asks
        → Aligned h.conn.read_buf.cur.begin answers
        → length (requests asks) < 2 ^ 64
        → length (frames answers) < 2 ^ 64
        → Lasting ns (requests asks)
        → Lasting ms (frames answers)
        → 4 * length cs < fuel
        → (d : Channel) × (c' : Connection) × (out : List ℕ) × (e : Channel) × (call_all codec h cs
            ≡ some d)
          × (Loop.recv_fn codec services write stack fuel ns
                (unsent d.conn.write_buf)
                Server.header_len
                c
                []
              ≡ some (Loop.paused Server.header_len c' out))
          × (recv_fn codec messages stack fuel ms
                (out ++ unsent c'.write_buf)
                header_len
                (with_conn d (record d.conn { write_buf = w }))
                []
              ≡ some (paused header_len e (replies cs)))
          × (e.sessions ≡ h.sessions)
          × (unread c'.read_buf ≡ [])
          × (unread e.conn.read_buf ≡ [])
          × (closed c' ≡ false)
          × (closed e.conn ≡ false)
  calls_answered cs h c fuel ns ms w ih ic below a al al' sm sm' l l' f =
      let id = h.next_id in
      let asks = all_asked codec id cs in
      let answers = all_replied codec id cs in
      let (d, t) = call_all_lem codec contract cs h ih.writable in
      let sent : unsent d.conn.write_buf ≡ requests asks =
        t.written ∙ ap (λ u. u ++ requests asks) ih.nothing_unsent in
      let (c', out, run, account, read, v, _, o) =
        requests_answered codec services write stack contract writer fuel ns
          (unsent d.conn.write_buf) asks c ic.readable ic.writable ic.opened
          (calls-AllServed codec services messages id cs a) al
          (ap (λ u. u ++ unsent d.conn.write_buf) ic.nothing_unread ∙ sent) sm l.0
          (subst (λ u. length u ≤ length ns) (sym sent) l.1)
          (omega (arith, f, length-asked codec id cs)) in
      let back : out ++ unsent c'.write_buf ≡ frames answers =
        account
        ∙ ap (λ u. u ++ responses codec asks) ic.nothing_unsent
        ∙ responses-frames codec id cs in
      let g = with_conn d (record d.conn { write_buf = w }) in
      let buf : d.conn.read_buf ≡ h.conn.read_buf = ap (λ z. z.read_buf) t.same in
      let (e, run', table, _, read', _, _, o') =
        responses_handled codec messages stack contract fuel ms (out ++ unsent c'.write_buf) answers
          g (subst Inv.IsValid (sym buf) ih.readable) (ap closed t.same ∙ ih.opened)
          (calls-AllReplies codec services messages id cs a)
          (Listed-Pending codec id cs d.sessions t.listed)
          (subst (λ b. Aligned b.cur.begin answers) (sym buf) al')
          (ap (λ u. u ++ (out ++ unsent c'.write_buf)) (ap unread buf ∙ ih.nothing_unread) ∙ back)
          sm' l'.0 (subst (λ u. length u ≤ length ms) (sym back) l'.1)
          (omega (arith, f, length-replied codec id cs)) in
      (
        d,
        c',
        out,
        e,
        t.runs,
        run,
        run' ∙ ap (λ z. some (paused header_len e z)) (deliveries-replied codec id cs),
        table ∙ t.settles ∙ settled-below codec id cs h.sessions below,
        read,
        read',
        o,
        o',
      )
