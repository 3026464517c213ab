-- ===== src/Chat/Server/Shutdown/Removal.antt =====
-- What `remove_client` (lab11/src/server.c) does to descriptors.
use cs_os.Prelude.{ℕ, ◌≡◌, inl, refl, true, some, arith, get_elem?, ◌<◌, get_or_of_get_elem?}
use cs_os.Chat.Server.{
  ServerClient, World, max_clients, no_client, vacate, remove_client, safe_close_socket,
}
use cs_os.Chat.Server.Shutdown.{is_closed, deliveries, Only, Share}
use cs_os.Chat.Server.Shutdown.Silence.{Share-modify}

-- The removal of an active client closes the descriptor in its slot.
pub remove_client-closes :
    (fd : ℕ) (w : World) (k : ℕ) (c : ServerClient)
    → k < max_clients
    → get_elem? w.clients k ≡ some c
    → c.is_active ≡ true
    → c.socket_fd ≡ some fd
    → (is_closed fd (remove_client w k).log ≡ true)
      × (deliveries (remove_client w k).log ≡ deliveries w.log)
unfolding remove_client safe_close_socket is_closed deliveries
remove_client-closes fd w k c lt e on own =
    ground (arith, get_or_of_get_elem? w.clients k c no_client e)

pub remove_client-socket : (w : World) (k : ℕ) → (remove_client w k).server_socket ≡ w.server_socket
unfolding remove_client
remove_client-socket w k = ground arith

pub remove_client-running : (w : World) (k : ℕ) → (remove_client w k).is_running ≡ w.is_running
unfolding remove_client
remove_client-running w k = ground arith

pub remove_client-Share :
    (fd : ℕ) (w : World) (k : ℕ) → Share fd w.clients → Share fd (remove_client w k).clients
unfolding remove_client
remove_client-Share fd w k s = ground (
  arith,
  s,
  Share-modify fd vacate w.clients k (λ (c : ServerClient) (o : Only fd c.socket_fd). vacated c) s,
)
  where
    vacated : (c : ServerClient) → Only fd (vacate c).socket_fd
    vacated c = unfold vacate in inl refl
