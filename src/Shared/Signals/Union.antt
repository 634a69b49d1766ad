-- ===== src/Shared/Signals/Union.antt =====
-- The metadata union of headers/emSignal.h, which the text output and the loading of a program
-- share.
use aru_xi.Base.{ℕ, true, false, ◌≡◌, ◌≢◌, ◌==◌, arith, Option, some, is_negative}
use aru_xi.Shared.SigHeap.{Heap, ok, ◌>>=◌, sfree}
use aru_xi.Shared.Signals.{
  Signal, enabled, io_idx, load_idx, IoData, LoadProg, set_io_signal, set_load_signal, free_args,
  sig_get, io_sent, load_sent,
}

io_sent_result :
    (fuel : ℕ) (h h' : Heap) (s s' : Signal) (r : Option ℕ) (io : IoData)
    → enabled io_idx s ≡ true
    → set_io_signal fuel h s io ≡ ok (h', s', r)
    → s' ≡ io_sent io s
unfolding set_io_signal
io_sent_result fuel h h' s s' r io on printed = ground arith

zero_test : (n : ℕ) → n ≢ 0 → (n == 0) ≡ false
zero_test n ne = ground arith

-- `setLoadSignal` after `setIOSignal` on the same signal, with both enabled, treats the buffer that
-- was printed as an `argv`: it frees as many pointers, read from the text in it, as the buffer had
-- bytes, and then the buffer.
pub set_load_signal-set_io_signal :
    (fuel base : ℕ) (h h' : Heap) (s s' : Signal) (r : Option ℕ) (io : IoData) (lp : LoadProg)
    → enabled io_idx s ≡ true
    → enabled load_idx s ≡ true
    → io.buffer_offset ≢ 0
    → is_negative io.count ≡ false
    → set_io_signal fuel h s io ≡ ok (h', s', r)
    → set_load_signal fuel base h' s' lp
      ≡ (free_args fuel base io.count io.buffer_offset h'
          >>= (λ h1. sfree fuel h1 (some io.buffer_offset)))
        >>= (λ h2. ok (h2, load_sent lp s', some (sig_get (load_sent lp s').interrupts load_idx)))
unfolding set_load_signal
set_load_signal-set_io_signal fuel base h h' s s' r io lp on on' buf count printed =
    rw (io_sent_result fuel h h' s s' r io on printed)
      (unfold io_sent in rw (on', zero_test io.buffer_offset buf, count))
