-- ===== src/BaseImpl/Receive/Datagrams/Received.antt =====
-- base_impl.hpp, async_receive: the data that a datagram makes the object report as received.
use cpp_local_datagram.Base.{ℕ, zero, suc, ◌≡◌, refl, inl, inr, Bool-cases, List, [], ◌∷◌}
use cpp_local_datagram.Endpoint.{Endpoint, non_empty_filesystem_endpoint_path}
use cpp_local_datagram.Memcpy.{ByteOrder, load_uint32}
use cpp_local_datagram.BaseImpl.State.{Notice, emit, received}
use cpp_local_datagram.BaseImpl.Receive.Datagrams.{datagram_notices, heartbeat_notices}

-- What the dispatcher is asked to report as received.
unfoldable pub received_of : List Notice → List (List ℕ × Endpoint)
received_of [] = []
received_of (emit (received v sender) ∷ ns) = (v, sender) ∷ received_of ns
received_of (_ ∷ ns) = received_of ns

heartbeat_notices-received_of :
    (d : ℕ) (sender : Endpoint) (g : ℕ) → received_of (heartbeat_notices d sender g) ≡ []
unfolding heartbeat_notices received_of
heartbeat_notices-received_of zero sender g = refl
heartbeat_notices-received_of (suc n) sender g =
    elim (Bool-cases (non_empty_filesystem_endpoint_path sender)) [
      | inl e ↦ rw e refl
      | inr e ↦ rw e refl
    ]

pub nothing-received_of :
    (order : ByteOrder) (sender : Endpoint) (g : ℕ)
    → received_of (datagram_notices order [] sender g) ≡ []
unfolding datagram_notices received_of
nothing-received_of order sender g = refl

pub heartbeat-received_of :
    (order : ByteOrder) (v : List ℕ) (sender : Endpoint) (g : ℕ)
    → received_of (datagram_notices order (0 ∷ v) sender g) ≡ []
unfolding datagram_notices received_of
heartbeat-received_of order (a ∷ b ∷ c ∷ d ∷ _) sender g =
    heartbeat_notices-received_of (load_uint32 order (a ∷ b ∷ c ∷ d ∷ [])) sender g
heartbeat-received_of order _ sender g = refl

pub user_data-received_of :
    (order : ByteOrder) (v : List ℕ) (sender : Endpoint) (g : ℕ)
    → received_of (datagram_notices order (1 ∷ v) sender g) ≡ (v, sender) ∷ []
unfolding datagram_notices received_of
user_data-received_of order v sender g = refl
