-- ===== src/Main/Creation.antt =====
-- What the start of the program creates is well formed.
use external_servo.Prelude.{
  ℕ, ◌<◌, ◌≡◌, inl, inr, Bool, not, List, if-both, Bool-cases, Option-cases, Every, missing, there,
  always, Every-bind, Holds-Every, arith,
}
use external_servo.Prelude.Int.{ℤ, pos, eqb_ℤ}
use external_servo.Double.{Double, nought}
use external_servo.Config.Types.{ServoConfig, DeviceConfig}
use external_servo.Filter.Dispatch.{filter_create}
use external_servo.Filter.Dispatch.Refine
use external_servo.Tsproc.{mode_of, tsproc_create}
use external_servo.Servo.Base.{Servo}
use external_servo.Servo.Range.{IsLimited}
use external_servo.Servo.Linreg.{linreg_servo_create, linreg_sync_interval}
use external_servo.Servo.Linreg.Memory
use external_servo.Servo.Linreg.Memory.{linreg_servo_create-IsValid}
use external_servo.Servo.Pi.{pi_servo_create}
use external_servo.Servo.Ntpshm.{ShmApi, ntpshm_servo_create}
use external_servo.Servo.Dispatch.{
  Kind, pi_servo, linear_reg, ntp_shm, create_kind, servo_create, servo_sync_interval,
}
use external_servo.Main.{device_init}
use external_servo.Main.Tracking.{Fits}

filter_create-Every :
    (alloc : ℕ → Bool) (type : ℤ) (n : ℕ)
    → 0 < n
    → Every Refine.IsValid (filter_create alloc type (pos n))
filter_create-Every alloc type n h = elim (Option-cases (filter_create alloc type (pos n))) [
  | inl e ↦ rw e missing
  | inr (f, e) ↦ rw e (there (Refine.create-IsValid alloc type n h e).0.0)
]

-- the devices leave the rest of the configuration
pub device_init-filter_len :
    (open_device : List ℕ → ℤ) (cfg : DeviceConfig)
    → (device_init open_device cfg).1.filter_len ≡ cfg.filter_len
unfolding device_init
device_init-filter_len open_device cfg = ground arith

module _ {ℓ} {D : Type ℓ} ⦃d : Double D⦄ where
  -- the frequency that a servo starts from
  abbrev pub initial_frequency : Kind D → D
  initial_frequency (pi_servo s) = s.last_freq
  initial_frequency (linear_reg s) = s.clock_freq
  initial_frequency (ntp_shm s) = nought

  abbrev pub IsMade : Kind D → Type 0
  IsMade (pi_servo s) = Unit
  IsMade (linear_reg s) = Memory.IsValid s
  IsMade (ntp_shm s) = Unit

  pub made-Fits :
      (top : D) (kind : Kind D)
      → IsMade kind
      → IsLimited top (initial_frequency kind)
      → Fits top kind
  made-Fits top (pi_servo s) m r = r
  made-Fits top (linear_reg s) m r = (m, r)
  made-Fits top (ntp_shm s) m r = tt

  linreg_create-Every :
      (alloc : ℕ → Bool) (cfg : ServoConfig D)
      → Every Memory.IsValid (linreg_servo_create alloc cfg)
  unfolding linreg_servo_create Memory.IsValid
  linreg_create-Every alloc cfg = elim (Bool-cases (alloc 1880)) [
    | inl fits ↦ Holds-Every (linreg_servo_create-IsValid alloc cfg fits)
    | inr short ↦ rw short missing
  ]

  create_kind-IsMade :
      (alloc : ℕ → Bool) (api : ShmApi) (cfg : ServoConfig D)
      → Every IsMade (create_kind alloc api cfg)
  unfolding create_kind
  create_kind-IsMade alloc api cfg =
      if-both (Every IsMade) (eqb_ℤ cfg.type (pos 0))
        (Every-bind (always (pi_servo_create alloc cfg)) (λ s u. there tt))
        (if-both (Every IsMade) (eqb_ℤ cfg.type (pos 1))
          (Every-bind (linreg_create-Every alloc cfg) (λ s v. there v))
          (if-both (Every IsMade) (eqb_ℤ cfg.type (pos 2))
            (Every-bind (always (ntpshm_servo_create alloc api cfg)) (λ s u. there tt)) missing))

  pub servo_create-IsMade :
      (alloc : ℕ → Bool) (api : ShmApi) (cfg : ServoConfig D)
      → Every (λ s. IsMade s.kind) (servo_create alloc api cfg)
  unfolding servo_create
  servo_create-IsMade alloc api cfg =
      Every-bind (create_kind-IsMade alloc api cfg) (λ kind m. there m)

  pub sync_interval-IsMade :
      (base : Servo D) (kind : Kind D) (interval : D)
      → IsMade kind
      → IsMade (servo_sync_interval (record { base = base; kind = kind }) interval).kind
  unfolding servo_sync_interval linreg_sync_interval Memory.IsValid
  sync_interval-IsMade base (pi_servo s) interval m = tt
  sync_interval-IsMade base (linear_reg s) interval m = m
  sync_interval-IsMade base (ntp_shm s) interval m = tt

  pub tsproc_create-Every :
      (alloc : ℕ → Bool) (mode filter : ℤ) (n : ℕ)
      → 0 < n
      → Every
          (λ tsp. Refine.IsValid tsp.delay_filter)
          (tsproc_create {D = D} alloc mode filter (pos n))
  unfolding tsproc_create
  tsproc_create-Every alloc mode filter n h =
      if-both (Every (λ tsp. Refine.IsValid tsp.delay_filter)) (not (alloc 72)) missing (
        Every-bind (always (mode_of mode))
          (λ m u. Every-bind (filter_create-Every alloc filter n h) (λ f v. there v)))
