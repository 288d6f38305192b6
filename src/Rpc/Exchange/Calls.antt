-- ===== src/Rpc/Exchange/Calls.antt =====
-- Calls one after another: the bytes that they add to the write buffer, and the table.
use xuanqiong.Base.{
  ℕ, suc, ◌+◌, ◌<◌, ◌≡◌, ◌≢◌, refl, sym, ap, ◌∙◌, subst, some, List, [], ◌∷◌, ◌++◌, append-nil,
  append_assoc, length, arith,
}
use xuanqiong.Base.Words.{bytes_u32}
use xuanqiong.Util.Output.{unsent}
use xuanqiong.Util.Output.Inv.{IsValid}
use xuanqiong.Net.Connection.{Connection}
use xuanqiong.Rpc.Codec.{Codec}
use xuanqiong.Rpc.Codec.Contract.{Contract}
use xuanqiong.Rpc.Stream.{frame}
use xuanqiong.Rpc.Stream.Laws.{send_frame_lem}
use xuanqiong.Rpc.Server.Requests.{requests, responses}
use xuanqiong.Rpc.Client.{Session, Channel, find, erase, assign, request_header, call_method}
use xuanqiong.Rpc.Client.Sessions.{find-erase_other}
use xuanqiong.Rpc.Client.Replies.{Pending, settled, frames, deliveries}
use xuanqiong.Rpc.Exchange.{Call, call_all, after_call, all_asked, replied, all_replied, replies}
use xuanqiong.Rpc.Exchange.Table.{AllBelow, AllBelow-suc, erase-absent, settled-assign}

-- A frame before other bytes, bracketed as the lists of frames are.
frame-append :
    (xs ys zs : List ℕ)
    → frame xs ys ++ zs ≡ bytes_u32 (length xs) ++ (xs ++ (bytes_u32 (length ys) ++ (ys ++ zs)))
unfolding frame
frame-append xs ys zs =
    let a = bytes_u32 (length xs) in
    let b = bytes_u32 (length ys) in
    append_assoc (a ++ xs ++ b) ys zs
    ∙ append_assoc (a ++ xs) b (ys ++ zs)
    ∙ append_assoc a xs (b ++ (ys ++ zs))

-- The frames that the server answers with are those that the client reads.
pub responses-frames :
    (codec : Codec) (id : ℕ) (cs : List Call)
    → responses codec (all_asked codec id cs) ≡ frames (all_replied codec id cs)
unfolding responses frames all_asked all_replied
responses-frames codec id [] = refl
responses-frames codec id (c ∷ cs) =
    frame-append _ _ _ ∙ rw (responses-frames codec (suc id) cs) refl

pub deliveries-replied :
    (codec : Codec) (id : ℕ) (cs : List Call) → deliveries (all_replied codec id cs) ≡ replies cs
unfolding deliveries all_replied replies
deliveries-replied codec id [] = refl
deliveries-replied codec id (c ∷ cs) =
    ap (λ z. (c.session, c.reply) ∷ z) (deliveries-replied codec (suc id) cs)

-- No response finds anything in a table of lesser ids.
pub settled-below :
    (codec : Codec) (id : ℕ) (cs : List Call) (ss : List (ℕ × Session))
    → AllBelow id ss
    → settled (all_replied codec id cs) ss ≡ ss
unfolding settled all_replied
settled-below codec id [] ss a = refl
settled-below codec id (c ∷ cs) ss a =
    ap (settled (all_replied codec (suc id) cs)) (erase-absent id ss a)
    ∙ settled-below codec (suc id) cs ss (AllBelow-suc id ss a)

-- Calls with ids from `id` on are in a table.
unfoldable pub Listed : ℕ → List Call → List (ℕ × Session) → Type 0
Listed id [] ss = Unit {0}
Listed id (c ∷ cs) ss = (find id ss ≡ some c.session) × Listed (suc id) cs ss

Listed-erase :
    (i id : ℕ) (cs : List Call) (ss : List (ℕ × Session))
    → i < id
    → Listed id cs ss
    → Listed id cs (erase i ss)
unfolding Listed
Listed-erase i id [] ss l p = record {}
Listed-erase i id (c ∷ cs) ss l p = (
  find-erase_other i id ss (λ e. absurd (omega (arith, e))) ∙ p.0,
  Listed-erase i (suc id) cs ss (omega arith) p.1,
)

pub Listed-Pending :
    (codec : Codec) (id : ℕ) (cs : List Call) (ss : List (ℕ × Session))
    → Listed id cs ss
    → Pending (all_replied codec id cs) ss
unfolding Listed all_replied
Listed-Pending codec id [] ss p = record {}
Listed-Pending codec id (c ∷ cs) ss p = (
  p.0,
  Listed-Pending codec (suc id) cs (erase id ss) (Listed-erase id (suc id) cs ss (omega arith) p.1),
)

-- What calls make of a channel.
pub record CallsDone (codec : Codec) (h : Channel) (cs : List Call) (d : Channel) : Type 0 where
  pub runs : call_all codec h cs ≡ some d
  pub written :
      unsent d.conn.write_buf ≡ unsent h.conn.write_buf ++ requests (all_asked codec h.next_id cs)
  pub writable : IsValid d.conn.write_buf
  pub same : record d.conn { write_buf = h.conn.write_buf } ≡ h.conn
  pub counted : d.next_id ≡ h.next_id + length cs
  pub listed : Listed h.next_id cs d.sessions
  pub kept : (j : ℕ) → j < h.next_id → find j d.sessions ≡ find j h.sessions
  pub settles :
      settled (all_replied codec h.next_id cs) d.sessions
      ≡ settled (all_replied codec h.next_id cs) h.sessions

-- One call, and what stands in the table then.
call_lem :
    (codec : Codec) (contract : Contract codec) (h : Channel) (c : Call)
    → IsValid h.conn.write_buf
    → (d : Channel) × (call_method codec h c.service c.name c.body c.session ≡ some d)
      × (unsent d.conn.write_buf
          ≡ unsent h.conn.write_buf
            ++ frame (codec.print_header (request_header h.next_id c.service c.name)) c.body)
      × IsValid d.conn.write_buf
      × (record d.conn { write_buf = h.conn.write_buf } ≡ h.conn)
      × (d.sessions ≡ assign h.next_id c.session h.sessions)
      × (d.next_id ≡ suc h.next_id)
unfolding call_method
call_lem codec contract h c v =
    let (w, e, a, w') =
      send_frame_lem codec contract h.conn.write_buf
        (codec.print_header (request_header h.next_id c.service c.name)) c.body v in
    (
      record h {
        conn = record h.conn { write_buf = w };
        sessions = assign h.next_id c.session h.sessions;
        next_id = suc h.next_id;
      },
      rw (e) refl,
      a,
      w',
      refl,
      refl,
      refl,
    )

find-assign : (i : ℕ) (s : Session) (ss : List (ℕ × Session)) → find i (assign i s ss) ≡ some s
unfolding find assign
find-assign i s ss = ground arith

find-assign_other :
    (i j : ℕ) (s : Session) (ss : List (ℕ × Session)) → j < i → find j (assign i s ss) ≡ find j ss
unfolding find assign
find-assign_other i j s ss l =
    let d : j ≢ i = λ e. absurd (omega (arith, e, l)) in
    ground (arith, find-erase_other i j ss d, d)

-- A call before others.
CallsDone-cons :
    {codec : Codec} {h d e : Channel} (c : Call) (cs : List Call)
    → (call_method codec h c.service c.name c.body c.session ≡ some d)
    → (unsent d.conn.write_buf
        ≡ unsent h.conn.write_buf
          ++ frame (codec.print_header (request_header h.next_id c.service c.name)) c.body)
    → (record d.conn { write_buf = h.conn.write_buf } ≡ h.conn)
    → (d.sessions ≡ assign h.next_id c.session h.sessions)
    → (d.next_id ≡ suc h.next_id)
    → CallsDone codec d cs e
    → CallsDone codec h (c ∷ cs) e
unfolding call_all requests all_asked all_replied Listed
CallsDone-cons {codec} {h} {d} {e} c cs run wr sm ta ne r = record {
  runs = ap (after_call (λ z. call_all codec z cs)) run ∙ r.runs;
  written =
      r.written
      ∙ ap (λ n. unsent d.conn.write_buf ++ requests (all_asked codec n cs)) ne
      ∙ ap (λ u. u ++ requests (all_asked codec (suc h.next_id) cs)) wr
      ∙ append_assoc (unsent h.conn.write_buf) _ _
      ∙ ap (λ z. unsent h.conn.write_buf ++ z) (frame-append _ _ _);
  writable = r.writable;
  same = ap {A = Connection} (λ z. record z { write_buf = h.conn.write_buf }) r.same ∙ sm;
  counted = (let k = r.counted in omega (arith, k, ne));
  listed = (
    r.kept h.next_id (omega (arith, ne))
        ∙ ap (find h.next_id) ta
        ∙ find-assign h.next_id c.session h.sessions,
    subst (λ n. Listed n cs e.sessions) ne r.listed,
  );
  kept = λ j l.
      r.kept j (omega (arith, ne, l))
      ∙ ap (find j) ta
      ∙ find-assign_other h.next_id j c.session h.sessions l;
  settles =
      settled-assign (replied codec h.next_id c) (all_replied codec (suc h.next_id) cs) c.session
        h.sessions e.sessions
        (subst
            (λ n.
              settled (all_replied codec n cs) e.sessions
              ≡ settled (all_replied codec n cs) d.sessions)
            ne r.settles
          ∙ ap (settled (all_replied codec (suc h.next_id) cs)) ta);
}

pub call_all_lem :
    (codec : Codec) (contract : Contract codec) (cs : List Call) (h : Channel)
    → IsValid h.conn.write_buf
    → (d : Channel) × CallsDone codec h cs d
unfolding call_all requests all_asked all_replied Listed
call_all_lem codec contract [] h v = (
  h,
  record {
    runs = refl;
    written = sym (append-nil (unsent h.conn.write_buf));
    writable = v;
    same = refl;
    counted = omega arith;
    listed = record {};
    kept = λ j l. refl;
    settles = refl;
  },
)
call_all_lem codec contract (c ∷ cs) h v =
    let (d, run, wr, w, sm, ta, ne) = call_lem codec contract h c v in
    let (e, r) = call_all_lem codec contract cs d w in (e, CallsDone-cons c cs run wr sm ta ne r)
