-- ===== src/Mq/SendSocket/Invariant.antt =====
-- The books of the socket pool: which socket carries which message, and where a socket goes.
use ndidplatform_api.Base.{
  ℕ, ◌≤◌, String, ◌≡◌, true, some, List, length, nat_eq, string_eq, get, Distinct, includes, Unique,
}
use ndidplatform_api.Mq.SendSocket.{SendSocket}

pub record Books (max : ℕ) (s : SendSocket) : Type 0 where
  pub held :
      (q : ℕ) (i : String)
      → get q s.socket_map ≡ some i
      → (seqs : List ℕ) × (get i s.socket_used_by ≡ some seqs) × (includes q seqs ≡ true)
  pub carries :
      (i : String) (seqs : List ℕ) (q : ℕ)
      → get i s.socket_used_by ≡ some seqs
      → includes q seqs ≡ true
      → get q s.socket_map ≡ some i
  pub used :
      (i : String) (seqs : List ℕ)
      → get i s.socket_used_by ≡ some seqs
      → Unique seqs × (1 ≤ length seqs) × (length seqs ≤ max)
  pub placed :
      (i : String) (seqs : List ℕ)
      → get i s.socket_used_by ≡ some seqs
      → (d : String) × (is : List String) × (get i s.socket_dest_map ≡ some d)
        × (get d s.socket_list_by_dest ≡ some is)
        × (includes i is ≡ true)
  pub listed :
      (d : String) (is : List String) (i : String)
      → get d s.socket_list_by_dest ≡ some is
      → includes i is ≡ true
      → get i s.socket_dest_map ≡ some d
  pub lists : (d : String) (is : List String) → get d s.socket_list_by_dest ≡ some is → Unique is
  pub distinct : Distinct s.socket_used_by
  pub counted : s.count ≡ length s.socket_used_by

-- The books with the messages: each sequence number in flight belongs to one message.
pub record Ledger (max : ℕ) (s : SendSocket) : Type 0 where
  pub books : Books max s
  pub in_flight :
      (m : String) (seqs : List ℕ) (q : ℕ)
      → get m s.seq_id_list ≡ some seqs
      → includes q seqs ≡ true
      → (i : String) × (get q s.socket_map ≡ some i)
  pub once : (m : String) (seqs : List ℕ) → get m s.seq_id_list ≡ some seqs → Unique seqs
  pub apart :
      (m m' : String) (seqs seqs' : List ℕ) (q : ℕ)
      → get m s.seq_id_list ≡ some seqs
      → get m' s.seq_id_list ≡ some seqs'
      → includes q seqs ≡ true
      → includes q seqs' ≡ true
      → m ≡ m'
  pub of_message :
      (q : ℕ) (i : String)
      → get q s.socket_map ≡ some i
      → (m : String) × (seqs : List ℕ) × (get m s.seq_id_list ≡ some seqs)
        × (includes q seqs ≡ true)
