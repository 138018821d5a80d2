-- ===== src/Boids/Fps.antt =====
-- modules/boids2d/Fps.h and modules/boids2d/Fps.cpp: the pace of the frames, in milliseconds as
-- unsigned ints. `now` is what SDL_GetTicks returns, and the delay is a result.
use wall_mon.Base.{
  ℕ, suc, ◌+◌, ◌-◌, ◌%◌, ◌^◌, ◌≤◌, ◌<◌, ◌≡◌, refl, arith, ltb, if◌then◌else◌, if_lem,
}
use wall_mon.Base.Double.{Double, int}

-- `_currentTime` has what was in memory.
pub record Fps (d : Double) : Type 0 where
  pub old_time : ℕ
  pub last_time : ℕ
  pub current_time : ℕ
  pub speed_factor : d.Num
  pub num_frames : ℕ
  pub frames : ℕ

-- 1000 / MAX_FPS as an unsigned int.
abbrev pub intended_time_spent : ℕ
intended_time_spent = 28

-- Differences of unsigned ints.
abbrev pub minus : ℕ → ℕ → ℕ
minus a b = (a + (2 ^ 32 - b)) % 2 ^ 32

module _ (d : Double) where
  unfoldable pub init : ℕ → Fps d
  init junk = record {
    old_time = 0;
    last_time = 0;
    current_time = junk;
    speed_factor = int d 0;
    num_frames = 0;
    frames = 0;
  }

  -- The delay, and the state after the loop.
  unfoldable pub count_second : ℕ → Fps d → Fps d
  count_second now f =
      if ltb ((f.old_time + 1000) % 2 ^ 32) now
      then record f { old_time = now; num_frames = f.frames; frames = 0 }
      else f

  unfoldable pub delay_of : ℕ → Fps d → ℕ
  delay_of now f =
      if ltb (minus now f.last_time) intended_time_spent
      then intended_time_spent - minus now f.last_time
      else 0

  unfoldable pub on_loop : ℕ → Fps d → ℕ × Fps d
  on_loop now f =
      let delay : ℕ = delay_of now f in
      let counted : Fps d = count_second now f in
      (
        delay,
        record counted {
          speed_factor =
              d.mul (d.div (int d ((minus now f.last_time + delay) % 2 ^ 32)) (int d 1000))
                (int d 35);
          last_time = (now + delay) % 2 ^ 32;
          frames = suc counted.frames;
        },
      )

  unfoldable pub get_fps : Fps d → ℕ
  get_fps f = f.num_frames

  unfoldable pub get_speed_factor : Fps d → d.Num
  get_speed_factor f = f.speed_factor

  unfoldable pub get_current_time_in_msec : Fps d → ℕ
  get_current_time_in_msec f = f.current_time

  unfoldable pub get_max_iterations_per_time_unit : d.Num → d.Num
  get_max_iterations_per_time_unit msec = d.div msec (int d 35)

  record Paced (now last delay : ℕ) : Type 0 where
    short : delay ≤ 28
    apart : 28 ≤ minus ((now + delay) % 2 ^ 32) last
    none_later : 28 ≤ minus now last → delay ≡ 0

  delay_of-Paced :
      (now : ℕ) (f : Fps d)
      → now < 2 ^ 32
      → f.last_time < 2 ^ 32
      → Paced now f.last_time (delay_of now f)
  unfolding delay_of
  delay_of-Paced now f hn hl =
      if_lem (Paced now f.last_time) (ltb (minus now f.last_time) 28)
        (λ ahead.
          let less : minus now f.last_time < 28 = ground (arith, ahead) in
          record {
            short = omega arith;
            apart = omega (arith, less, hn, hl);
            none_later = λ h. absurd (omega (arith, h, less));
          })
        (λ behind.
          let more : 28 ≤ minus now f.last_time = ground (arith, behind) in
          record {
            short = omega arith;
            apart = omega (arith, more, hn, hl);
            none_later = λ h. refl;
          })

  -- Whenever a frame is asked for, at unsigned int times: the delay is 28 milliseconds at most, and
  -- with it, the time from the last frame to this one is 28 milliseconds or more, also when the
  -- clock has wrapped around between them; when they are already 28 or more apart there is no delay.
  pub on_loop-Paced :
      (now : ℕ) (f : Fps d)
      → now < 2 ^ 32
      → f.last_time < 2 ^ 32
      → ((on_loop now f).0 ≤ 28)
        × (28 ≤ minus (on_loop now f).1.last_time f.last_time)
        × (28 ≤ minus now f.last_time → (on_loop now f).0 ≡ 0)
  unfolding on_loop delay_of
  on_loop-Paced now f hn hl = let p = delay_of-Paced now f hn hl in (p.short, p.apart, p.none_later)
