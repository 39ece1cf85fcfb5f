-- ===== src/Queue/Delay.antt =====
-- The delays between the attempts to send an item.
use lan_qin_email.Prelude.{◌+◌, ◌<◌, ℕ, zero, suc, ◌*◌, ◌≤◌, ◌≡◌, ◌==◌, arith, Bool-cases, inl, inr}
use lan_qin_email.Queue.{second, hour}
use lan_qin_email.Queue.Worker.{send_retry_delay}

delay_steps : (n : ℕ) → send_retry_delay n ≤ send_retry_delay (suc n)
unfolding send_retry_delay
delay_steps zero = omega arith
delay_steps (suc zero) = omega arith
delay_steps (suc (suc zero)) = omega arith
delay_steps (suc (suc (suc zero))) = omega arith
delay_steps (suc (suc (suc (suc zero)))) = omega arith
delay_steps (suc (suc (suc (suc (suc n))))) = ground arith

delay_mono : (m n : ℕ) → m ≤ n → send_retry_delay m ≤ send_retry_delay n
delay_mono m zero h = let e : m ≡ 0 = omega arith in rw e (omega arith)
delay_mono m (suc n) h = elim (Bool-cases (m == suc n)) [
  | inl same ↦ let e : m ≡ suc n = ground arith in rw e (omega arith)
  | inr less ↦ omega (arith, delay_steps n, delay_mono m n (ground arith))
]

delay_range : (n : ℕ) → (30 * second ≤ send_retry_delay n) × (send_retry_delay n ≤ 6 * hour)
unfolding send_retry_delay
delay_range zero = omega arith
delay_range (suc zero) = omega arith
delay_range (suc (suc zero)) = omega arith
delay_range (suc (suc (suc zero))) = omega arith
delay_range (suc (suc (suc (suc zero)))) = omega arith
delay_range (suc (suc (suc (suc (suc n))))) = ground arith

delay_grows : (n : ℕ) → 1 ≤ n → n < 5 → 4 * send_retry_delay n ≤ send_retry_delay (n + 1)
unfolding send_retry_delay
delay_grows zero low high = absurd (omega arith)
delay_grows (suc zero) low high = omega arith
delay_grows (suc (suc zero)) low high = omega arith
delay_grows (suc (suc (suc zero))) low high = omega arith
delay_grows (suc (suc (suc (suc zero)))) low high = omega arith
delay_grows (suc (suc (suc (suc (suc n))))) low high = absurd (omega arith)

delay_last : (k : ℕ) → send_retry_delay (5 + k) ≡ 6 * hour
unfolding send_retry_delay
delay_last zero = omega arith
delay_last (suc k) = ground arith

-- From the first attempt to the fifth, each delay is at least four times the one before it; from the
-- fifth attempt on it is six hours. It never shrinks, and lies between half a minute and six hours.
pub send_retry_delay_bounds :
    (n m k : ℕ)
    → 1 ≤ n
    → n < 5
    → (4 * send_retry_delay n ≤ send_retry_delay (n + 1))
      × (send_retry_delay (5 + k) ≡ 6 * hour)
      × (send_retry_delay m ≤ send_retry_delay (m + k))
      × (30 * second ≤ send_retry_delay m)
      × (send_retry_delay m ≤ 6 * hour)
send_retry_delay_bounds n m k low high = (
  delay_grows n low high,
  delay_last k,
  delay_mono m (m + k) (omega arith),
  (delay_range m).0,
  (delay_range m).1,
)
