-- ===== src/Afpacket/Sockets.antt =====
-- The AF_PACKET sockets of traffic-generator/cmd/afpacket-stress/main.go: `increaseRlimit`,
-- `htons`, `createAFPacketSocket`, and the closing loop of `main`. The trace records each system
-- call with its answer, the newest first.
use Prim.Native.Nat.{bit_and, bit_or}
use net_perf_test.Common.{
  ℕ, ◌+◌, ◌*◌, ◌/◌, ◌%◌, List, [], ◌∷◌, ◌++◌, Result, ok, err, M, pure, throw, ltb, ◌>>=◌, ◌>>◌,
  if◌then◌else◌,
}

-- `(i<<8)&0xff00 | i>>8` on a uint16
unfoldable pub htons : ℕ → ℕ
htons i = bit_or (bit_and (i * 256 % 65536) 0xff00) (i / 256)

abbrev pub eth_p_all : ℕ
eth_p_all = 3

pub record Rlimit : Type 0 where
  pub cur : ℕ
  pub max : ℕ

-- The limit that `increaseRlimit` sets, from the one that it gets.
unfoldable pub raised_rlimit : Rlimit → Rlimit
raised_rlimit r =
    let r' : Rlimit = record { cur = r.max; max = r.max } in
    if ltb r'.cur 65536 then record { cur = 65536; max = 65536 } else r'

-- `AFPacketSocket`, without the counters, which the receiver keeps.
pub record AfPacketSocket : Type 0 where
  pub fd : ℕ
  pub id : ℕ
  pub iface_idx : ℕ

pub data Call : Type 0 where
  socket : ℕ → Call
  set_nonblock : ℕ → Call
  bind : ℕ → ℕ → ℕ → Call
  set_rcvbuf : ℕ → ℕ → Call
  close : ℕ → Call

abbrev pub Trace : Type 0
Trace = List (Call × Result ℕ ℕ)

pub data Error : Type 0 where
  socket_failed nonblock_failed bind_failed : ℕ → Error

-- The kernel's answers are a parameter.
module _ (answer : Trace → Call → Result ℕ ℕ) where
  unfoldable pub attempt : Call → M Trace Error (Result ℕ ℕ)
  attempt c t = let a = answer t c in (ok a, (c, a) ∷ t)

  -- A step on an open socket, which is closed if the step fails.
  unfoldable pub step_or_close : ℕ → Call → (ℕ → Error) → M Trace Error (Unit {0})
  unfolding ◌>>=◌ attempt
  step_or_close fd c wrap = attempt c >>= λ done. elim done [
    | ok _ ↦ pure tt
    | err e ↦ do _ ← attempt (close fd); throw (wrap e)
  ]

  unfoldable pub open_socket : M Trace Error ℕ
  unfolding ◌>>=◌ attempt
  open_socket = attempt (socket (htons eth_p_all)) >>= λ made. elim made [
    | ok fd ↦ pure fd
    | err e ↦ throw (socket_failed e)
  ]

  unfoldable pub create_af_packet_socket : ℕ → ℕ → M Trace Error AfPacketSocket
  unfolding ◌>>=◌ open_socket step_or_close
  create_af_packet_socket id iface_idx = do
    fd ← open_socket
    step_or_close fd (set_nonblock fd) nonblock_failed
    step_or_close fd (bind fd (htons eth_p_all) iface_idx) bind_failed
    _ ← attempt (set_rcvbuf fd (1024 * 64))
    pure (record { fd = fd; id = id; iface_idx = iface_idx })

  -- The sockets made so far, in order, with the trace. `activeSockets` is their number.
  pub record Pool : Type 0 where
    pub sockets : List AfPacketSocket
    pub active : ℕ
    pub trace : Trace

  abbrev pub added : Result Error AfPacketSocket → Pool → Trace → Pool
  added (ok s) p t = record { sockets = p.sockets ++ (s ∷ []); active = p.active + 1; trace = t }
  added (err _) p t = record p { trace = t }

  -- The body of the creating loops: a socket that cannot be made is passed over.
  unfoldable pub add_socket : ℕ → ℕ → Pool → Pool
  add_socket iface_idx id p =
      let r = create_af_packet_socket id iface_idx p.trace in added r.0 p r.1

  -- `for _, sock := range sockets { syscall.Close(sock.fd) }`
  unfoldable pub close_all : List AfPacketSocket → Trace → Trace
  close_all [] t = t
  close_all (s ∷ ss) t = close_all ss ((close s.fd, answer t (close s.fd)) ∷ t)
