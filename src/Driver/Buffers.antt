-- ===== src/Driver/Buffers.antt =====
-- The buffers of a stream thread of include/graph_sketch_driver.h divide its updates, and nothing
-- else.
use graph_streaming_cc.Prelude.{
  ℕ, ◌≡◌, refl, inl, inr, ◌∙◌, Bool, true, false, ◌>>=◌, if◌then◌else◌, Option, none, some, List,
  [], ◌∷◌, ◌++◌, Bool-cases,
}
use graph_streaming_cc.Driver.{
  GraphUpdate, is_breakpoint, Gutters, DriverState, stream_update, stream_buffer, stream_task,
}

-- The buffers in a row.
unfoldable pub joined : List (List GraphUpdate) → List GraphUpdate
joined [] = []
joined (b ∷ bs) = b ++ joined bs

module _ (gutters : Gutters) (thr_id : ℕ) where
  -- A stream thread over one list of updates.
  unfoldable pub stream_all : DriverState gutters → List GraphUpdate → Option (DriverState gutters)
  stream_all d [] = none
  stream_all d (u ∷ us) =
      if is_breakpoint u.update_type
      then some d
      else (stream_update gutters [] thr_id d u.edge >>= (λ d'. stream_all d' us))

  -- After one buffer.
  after_buffer : List (List GraphUpdate) → DriverState gutters × Bool → Option (DriverState gutters)
  after_buffer rest (d, true) = some d
  after_buffer rest (d, false) = stream_task gutters thr_id d rest

  -- The buffers divide the updates, and nothing else.
  stream_buffer-joined :
      (us : List GraphUpdate) (rest : List (List GraphUpdate)) (d : DriverState gutters)
      → ((d' : DriverState gutters)
          → stream_task gutters thr_id d' rest ≡ stream_all d' (joined rest))
      → (stream_buffer gutters thr_id d us >>= after_buffer rest) ≡ stream_all d (us ++ joined rest)
  unfolding stream_buffer stream_all after_buffer
  stream_buffer-joined [] rest d ih = ih d
  stream_buffer-joined (u ∷ us) rest d ih = elim (Bool-cases (is_breakpoint u.update_type)) [
    | inl last ↦ rw last refl
    | inr goes ↦ rw goes (
        after_update (stream_update gutters [] thr_id d u.edge)
          (λ d'. stream_buffer-joined us rest d' ih))
  ]
    where
      after_update :
          (o : Option (DriverState gutters))
          → ((d' : DriverState gutters)
              → (stream_buffer gutters thr_id d' us >>= after_buffer rest)
                ≡ stream_all d' (us ++ joined rest))
          → ((o >>= (λ d'. stream_buffer gutters thr_id d' us)) >>= after_buffer rest)
            ≡ (o >>= (λ d'. stream_all d' (us ++ joined rest)))
      after_update none h = refl
      after_update (some d') h = h d'

  pub stream_task-joined :
      (buffers : List (List GraphUpdate)) (d : DriverState gutters)
      → stream_task gutters thr_id d buffers ≡ stream_all d (joined buffers)
  unfolding stream_task stream_all joined after_buffer
  stream_task-joined [] d = refl
  stream_task-joined (b ∷ bs) d =
      same (stream_buffer gutters thr_id d b)
      ∙ stream_buffer-joined b bs d (λ d'. stream_task-joined bs d')
    where
      same :
          (o : Option (DriverState gutters × Bool))
          → (o >>= (λ p. elim p.1 [ true ↦ some p.0 | false ↦ stream_task gutters thr_id p.0 bs ]))
            ≡ (o >>= after_buffer bs)
      same none = refl
      same (some (d', true)) = refl
      same (some (d', false)) = refl
