-- ===== src/Rpc/Client/Sessions.antt =====
-- The table of sessions, and a call.
use Prim.Native.String.{String}
use xuanqiong.Base.{ℕ, suc, ◌≡◌, ◌≢◌, refl, none, some, List, [], ◌∷◌, ◌++◌, arith}
use xuanqiong.Util.Output.{unsent}
use xuanqiong.Util.Output.Inv.{IsValid}
use xuanqiong.Rpc.Codec.{Codec}
use xuanqiong.Rpc.Stream.{frame}
use xuanqiong.Rpc.Codec.Contract.{Contract}
use xuanqiong.Rpc.Stream.Laws.{send_frame_lem}
use xuanqiong.Rpc.Client.{Session, Channel, find, erase, assign, request_header, call_method}

-- What is erased is not found, and nothing else is touched.
pub find-erase : (i : ℕ) (ss : List (ℕ × Session)) → find i (erase i ss) ≡ none
unfolding find erase
find-erase i [] = refl
find-erase i ((k, s) ∷ ss) = ground (arith, find-erase i ss)

pub find-erase_other : (i j : ℕ) (ss : List (ℕ × Session)) → j ≢ i → find j (erase i ss) ≡ find j ss
unfolding find erase
find-erase_other i j [] d = refl
find-erase_other i j ((k, s) ∷ ss) d = ground (arith, find-erase_other i j ss d)

-- For a protobuf runtime that keeps its contract with streams, a valid write buffer, and an id
-- `j` other than the channel's next one: a call returns; the write buffer is valid and has gained
-- one frame, whose header is a request's with the next id, the service and the method; the read
-- buffer is as it was; under the next id the call's session is found, under `j` what was found
-- before; and the next id is one more.
call_method_lem :
    (codec : Codec) (contract : Contract codec) (h : Channel) (service method : String)
    (body : List ℕ) (s : Session) (j : ℕ)
    → IsValid h.conn.write_buf
    → j ≢ h.next_id
    → (d : Channel) × (call_method codec h service method body s ≡ some d)
      × (unsent d.conn.write_buf
          ≡ unsent h.conn.write_buf
            ++ frame (codec.print_header (request_header h.next_id service method)) body)
      × IsValid d.conn.write_buf
      × (d.conn.read_buf ≡ h.conn.read_buf)
      × (find h.next_id d.sessions ≡ some s)
      × (find j d.sessions ≡ find j h.sessions)
      × (d.next_id ≡ suc h.next_id)
unfolding call_method find
call_method_lem codec contract h service method body s j v d =
    let (w, e, a, w') =
      send_frame_lem codec contract h.conn.write_buf
        (codec.print_header (request_header h.next_id service method)) body v in
    (
      record h {
        conn = record h.conn { write_buf = w };
        sessions = assign h.next_id s h.sessions;
        next_id = suc h.next_id;
      },
      rw (e) refl,
      a,
      w',
      refl,
      ground arith,
      ground (arith, find-erase_other h.next_id j h.sessions d),
      refl,
    )
