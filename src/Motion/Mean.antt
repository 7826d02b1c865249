-- ===== src/Motion/Mean.antt =====
-- What `processMEMS` (src/main.cpp) packs: the mean of all samples since the last packing.
use vorsprung_logger.Base.{
  ℕ, zero, suc, ◌+◌, ◌%◌, ◌<◌, ◌≡◌, refl, sym, ap, ◌∙◌, true, false, ◌==◌, List, [], ◌∷◌, ◌++◌,
  length, length-append, Option, none, some, arith, u8_mod,
}
use mathlib.Core.Path.{ap₂, subst₂}
use vorsprung_logger.Buffer.{Buffer}
use vorsprung_logger.Telemetry.Flags.{mems_ready, Flags, check}
use vorsprung_logger.Uds.Decode.{FloatOps}
use vorsprung_logger.Motion.{
  Vector, each, over_count, nought, Sample, Sensor, Motion, gather, mean, add_vector, process_mems,
}

module _ (f : FloatOps) (sensor : Sensor f) where
  open sensor use {Hw, read}

  -- The readings that the sensor is about to give.
  abbrev pub Supplies : List (Sample f) → Hw → Type 0
  Supplies [] hw = Unit
  Supplies (s ∷ ss) hw = ((read hw).0 ≡ some s) × Supplies ss (read hw).1

  abbrev pub sums : Vector f → List (Sample f) → Vector f
  sums v [] = v
  sums v (s ∷ ss) = sums (each f f.plus v s.acc) ss

  -- So many calls between two packings.
  abbrev pub idle_calls : ℕ → Flags → Motion f → Hw → Motion f × Hw
  idle_calls zero flags m hw = (m, hw)
  idle_calls (suc n) flags m hw =
      let (b, m', hw') = process_mems f sensor flags none m hw in idle_calls n flags m' hw'

  -- One call, with a slot and without one.
  idle_call :
      (flags : Flags) (m : Motion f) (hw : Hw) (s : Sample f)
      → check (mems_ready ∷ []) flags ≡ true
      → (read hw).0 ≡ some s
      → (process_mems f sensor flags none m hw).1 ≡ gather f s m
  unfolding process_mems
  idle_call flags m hw s ready reading = rw (ready, reading) refl

  packing_call :
      (flags : Flags) (b : Buffer) (m : Motion f) (hw : Hw) (s : Sample f)
      → check (mems_ready ∷ []) flags ≡ true
      → (read hw).0 ≡ some s
      → ((m.acc_count + 1) % u8_mod == 0) ≡ false
      → ((process_mems f sensor flags (some b) m hw).0
          ≡ some (add_vector f (mean f (gather f s m)) b))
        × ((process_mems f sensor flags (some b) m hw).1.acc_count ≡ 0)
        × ((process_mems f sensor flags (some b) m hw).1.acc_sum ≡ nought f)
  unfolding process_mems
  packing_call flags b m hw s ready reading some_count =
      rw (ready, reading, some_count) (refl, refl, refl)

  next_hw :
      (flags : Flags) (b : Option Buffer) (m : Motion f) (hw : Hw)
      → check (mems_ready ∷ []) flags ≡ true
      → (process_mems f sensor flags b m hw).2 ≡ (read hw).1
  unfolding process_mems
  next_hw flags b m hw ready = rw ready refl

  -- What a packing call leaves: the slot with this vector, and the sum begun anew.
  pub record Packs (b : Buffer) (v : Vector f) (r : Option Buffer × Motion f × Hw) : Type 0 where
    pub packed : r.0 ≡ some (add_vector f v b)
    pub no_count : r.1.acc_count ≡ 0
    pub no_sum : r.1.acc_sum ≡ nought f

  -- The mean of `n` samples with this sum, less the bias.
  abbrev pub unbiased : Vector f → ℕ → Vector f → Vector f
  unbiased sum n bias = each f f.minus (over_count f sum n) bias

  later_calls :
      (flags : Flags) (b : Buffer) (ss : List (Sample f)) (s : Sample f) (m : Motion f) (hw : Hw)
      → check (mems_ready ∷ []) flags ≡ true
      → Supplies (ss ++ s ∷ []) hw
      → m.acc_count + length ss < 255
      → let (m', hw') = idle_calls (length ss) flags m hw in
        Packs b
          (unbiased (sums m.acc_sum (ss ++ s ∷ [])) (m.acc_count + length ss + 1) m.acc_bias)
          (process_mems f sensor flags (some b) m' hw')
  later_calls flags b [] s m hw ready reading few =
      let (packed, no_count, no_sum) = packing_call flags b m hw s ready reading.0 (ground arith) in
      let n : (m.acc_count + 1) % u8_mod ≡ m.acc_count + 0 + 1 = omega arith in
      record {
        packed =
            packed
            ∙ ap
                (λ (k : ℕ).
                  some (add_vector f (unbiased (each f f.plus m.acc_sum s.acc) k m.acc_bias) b))
                n;
        no_count = no_count;
        no_sum = no_sum;
      }
  later_calls flags b (r ∷ ss) s m hw ready reading few =
      let later =
        later_calls flags b ss s (gather f r m) (read hw).1 ready reading.1 (omega arith) in
      let n : (m.acc_count + 1) % u8_mod + length ss + 1 ≡ m.acc_count + length (r ∷ ss) + 1 =
        omega arith in
      let goes : idle_calls (length (r ∷ ss)) flags m hw
          ≡ idle_calls (length ss) flags (gather f r m) (read hw).1 =
        ap₂ (λ (m' : Motion f) (hw' : Hw). idle_calls (length ss) flags m' hw')
          (idle_call flags m hw r ready reading.0) (next_hw flags none m hw ready) in
      subst₂
        (λ (k : ℕ) (o : Motion f × Hw).
          Packs b (unbiased (sums (each f f.plus m.acc_sum r.acc) (ss ++ s ∷ [])) k m.acc_bias)
            (process_mems f sensor flags (some b) o.0 o.1))
        n (sym goes) later

  -- The acceleration in a slot is the mean of all the samples since the last packing, those taken
  -- while the engine was asked included, less the bias; then the sum begins anew. The sensor is
  -- ready, each of the calls since the packing gets a sample, and there are fewer than 256 of them,
  -- since the code counts them in a byte.
  pub process_mems-mean :
      (flags : Flags) (b : Buffer) (ss : List (Sample f)) (s : Sample f) (m : Motion f) (hw : Hw)
      → check (mems_ready ∷ []) flags ≡ true
      → m.acc_count ≡ 0
      → m.acc_sum ≡ nought f
      → Supplies (ss ++ s ∷ []) hw
      → length (ss ++ s ∷ []) < 256
      → let (m', hw') = idle_calls (length ss) flags m hw in
        Packs b
          (unbiased (sums (nought f) (ss ++ s ∷ [])) (length (ss ++ s ∷ [])) m.acc_bias)
          (process_mems f sensor flags (some b) m' hw')
  process_mems-mean flags b ss s m hw ready none_yet empty reading few =
      let long = length-append ss (s ∷ []) in
      let r = later_calls flags b ss s m hw ready reading (omega arith) in
      let n : m.acc_count + length ss + 1 ≡ length (ss ++ s ∷ []) = omega arith in
      let v : unbiased (sums m.acc_sum (ss ++ s ∷ [])) (m.acc_count + length ss + 1) m.acc_bias
          ≡ unbiased (sums (nought f) (ss ++ s ∷ [])) (length (ss ++ s ∷ [])) m.acc_bias =
        ap (λ k. unbiased (sums m.acc_sum (ss ++ s ∷ [])) k m.acc_bias) n
        ∙ ap (λ w. unbiased (sums w (ss ++ s ∷ [])) (length (ss ++ s ∷ [])) m.acc_bias) empty in
      record {
        packed = r.packed ∙ ap (λ w. some (add_vector f w b)) v;
        no_count = r.no_count;
        no_sum = r.no_sum;
      }
