-- ===== src/Socket/Writing.antt =====
-- `APE_socket_write` on a socket that is online and has nothing waiting.
use zape.Base.{
  ℕ, ◌<◌, ◌^◌, ◌≡◌, ap, ◌∙◌, false, none, some, List, [], ◌∷◌, length, ◌==◌, if◌then◌else◌, arith,
}
use zape.Base.Fault.{◌>>=◌}
use zape.Socket.Types.{online, DataType, World, emit, transmitted, is_ssl, Job}
use zape.Socket.Close.{busy}
use zape.Pool.State.{PoolList}
use zape.Socket.Lifecycle.{state_of_alive}
use zape.Socket.Queued.{with_jobs}
use zape.Socket.Write.{Answer, wrote, Places, write_loop, set_would_block, settle, write}
use zape.Socket.Sent.{zeros, write_loop_partial}

-- online without TLS, with nothing waiting
pub record IsIdle (w : World) : Type 0 where
  pub alive : w.freed ≡ false
  pub is_on : w.sock.state ≡ online
  pub plain : is_ssl w.sock.proto ≡ false
  pub free : busy w.sock ≡ some false

-- the world when a socket blocks with `n` bytes more in its jobs
abbrev pub blocked_world : World → PoolList Job → ℕ → World
blocked_world w l n = with_jobs (set_would_block (emit w (transmitted []))) l n

module _ (m : Places) (w : World) (idle : IsIdle w) (payload : List ℕ) (len : ℕ) (t : DataType)
    (whole : len ≡ length payload) (pos : 0 < len) (small : len < 2 ^ 64) where
  write_run :
      (answers : List Answer)
      → write m w payload len t answers
        ≡ (write_loop answers payload len 0 len [] >>= settle m w payload len t)
  unfolding write
  write_run answers =
      let some_left : (len == 0) ≡ false = ground arith in
      simp
        (state_of_alive w idle.alive, idle.is_on, idle.plain, idle.free, some_left, if◌then◌else◌)

  -- On an idle socket without TLS, for a block of 1 to 2^64 - 1 bytes and after any number of answers of 0 bytes: when
  -- a call of `write` takes some of the bytes but not all, `APE_socket_write` reads past the end of
  -- the block in the next call, whatever the answers are from there on.
  pub write_partial :
      (k n : ℕ)
      → 0 < n
      → n < len
      → (a : Answer) (answers : List Answer)
      → write m w payload len t (zeros k (wrote n ∷ a ∷ answers)) ≡ none
  write_partial k n some_taken left a answers =
      write_run (zeros k (wrote n ∷ a ∷ answers))
      ∙ ap (λ r. r >>= settle m w payload len t)
          (write_loop_partial payload len whole pos small k n some_taken left a answers)
