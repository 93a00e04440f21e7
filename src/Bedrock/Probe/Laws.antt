-- ===== src/Bedrock/Probe/Laws.antt =====
-- What a model has streamed when it passes the probe.
use ai_agent_go_service.Prelude.{
  ◌≡◌, refl, sym, ap, subst, ◌∙◌, inl, inr, String, ◌==◌, eq_iff, Bool, true, false, List, [], ◌∷◌,
  ◌++◌, Option, none, some, Result, ok, err, ◌>>=◌, arith,
}
use mathlib.Core.List.Memᴰ
use mathlib.Core.List.{Memᴰ, append-nil, append_assoc}
use ai_agent_go_service.Agent.Types.{
  LlmToolUse, LlmEvent, reasoning_delta, text_delta, tool_use_stop, message_stop, other_kind,
}
use ai_agent_go_service.Bedrock.Chunks.{
  Chunk, Decoder, Accum, decode_chunk, apply_chunk, handle_anthropic_chunk, lookup,
}
use ai_agent_go_service.Bedrock.Chunks.Laws.{
  Completed, followed, AllBuilt, Steps, apply_chunk-Steps,
}
use ai_agent_go_service.Bedrock.Probe.{
  ContractViolation, ProbeError, Member, chunk, other_member, ResponseStream, Outside,
  verify_tool_use, verify_tool_probe, sent, emit, unless_done, after_chunk, collect_members,
  drained, collect_probe_events, in_contract, judge, invoked, with_payload, validate_model,
}

-- A stream all of whose members are chunks, and what they are.
pub data Decodes (d : Decoder) : List Member → List Chunk → Type 0 where
  decodes_nil : Decodes d [] []
  decodes_chunk :
      {raw : String} {c : Chunk} {ms : List Member} {cs : List Chunk}
      → decode_chunk d raw ≡ ok c
      → Decodes d ms cs
      → Decodes d (chunk raw ∷ ms) (c ∷ cs)

-- The tool uses that the events complete are those that the chunks complete.
abbrev AllDone : List Chunk → List LlmEvent → Type 0
AllDone cs events = (tu : LlmToolUse) → Memᴰ (tool_use_stop tu) events → Completed cs tu

-- A tool use that keeps the contract.
pub record IsCalled (is_valid : String → Bool) (tu : LlmToolUse) : Type 0 where
  name_echo : tu.name ≡ "echo"
  input_some : (tu.input == "") ≡ false
  input_valid : is_valid tu.input ≡ true

verify_tool_use-IsCalled :
    (is_valid : String → Bool) (tu : LlmToolUse)
    → verify_tool_use is_valid tu ≡ none
    → IsCalled is_valid tu
unfolding verify_tool_use
verify_tool_use-IsCalled is_valid tu h = record {
  name_echo = ground (arith, eq_iff tu.name "echo");
  input_some = ground arith;
  input_valid = ground arith;
}

verify_tool_probe-IsCalled :
    (is_valid : String → Bool) (evs : List LlmEvent)
    → verify_tool_probe is_valid evs ≡ none
    → (tu : LlmToolUse) × (Memᴰ (tool_use_stop tu) evs × IsCalled is_valid tu)
unfolding verify_tool_probe
verify_tool_probe-IsCalled is_valid [] h = absurd (ground arith)
verify_tool_probe-IsCalled is_valid (tool_use_stop tu ∷ evs) h =
    (tu, (Memᴰ.head refl, verify_tool_use-IsCalled is_valid tu h))
verify_tool_probe-IsCalled is_valid (reasoning_delta s ∷ evs) h =
    let (tu, (m, c)) = verify_tool_probe-IsCalled is_valid evs h in (tu, (Memᴰ.tail m, c))
verify_tool_probe-IsCalled is_valid (text_delta s ∷ evs) h =
    let (tu, (m, c)) = verify_tool_probe-IsCalled is_valid evs h in (tu, (Memᴰ.tail m, c))
verify_tool_probe-IsCalled is_valid (message_stop s ∷ evs) h =
    let (tu, (m, c)) = verify_tool_probe-IsCalled is_valid evs h in (tu, (Memᴰ.tail m, c))
verify_tool_probe-IsCalled is_valid (other_kind ∷ evs) h =
    let (tu, (m, c)) = verify_tool_probe-IsCalled is_valid evs h in (tu, (Memᴰ.tail m, c))

mem-single {ℓ} : {A : Type ℓ} {a b : A} → Memᴰ a (b ∷ []) → a ≡ b
mem-single (Memᴰ.head q) = q
mem-single (Memᴰ.tail i) = elim i [ ]

module _ {W : Type 0} (outside : Outside W) where
  -- What the members of a stream come to, behind the chunks that were seen.
  Collected : List Chunk → List Member → Result ProbeError (List LlmEvent) → Type 0
  Collected seen ms (err e) = Unit
  Collected seen ms (ok evs) =
      (cs : List Chunk) × (Decodes outside.decoder ms cs × AllDone (seen ++ cs) evs)

  sent-AllDone :
      (cs : List Chunk) (r : Accum × Option LlmEvent) (s : Bool × W) (ev : LlmEvent)
      (events : List LlmEvent)
      → Steps cs r
      → r.1 ≡ some ev
      → AllDone cs events
      → AllDone cs (sent outside s ev events).0
  unfolding sent
  sent-AllDone cs r (false, w) ev events st e h = h
  sent-AllDone cs r (true, w) ev events st e h = λ tu m. elim (Memᴰ.append_cases events m) [
    | inl i ↦ h tu i
    | inr i ↦ st.done tu (e ∙ ap some (sym (mem-single i)))
  ]

  emit-AllDone :
      (cs : List Chunk) (r : Accum × Option LlmEvent) (o : Option LlmEvent) (events : List LlmEvent)
      (w : W)
      → Steps cs r
      → r.1 ≡ o
      → AllDone cs events
      → AllDone cs (emit outside o events w).0
  unfolding emit
  emit-AllDone cs r none events w st e h = h
  emit-AllDone cs r (some ev) events w st e h =
      sent-AllDone cs r (outside.is_sent w) ev events st e h

  unless_done-Collected :
      (seen : List Chunk) (ms : List Member) (x : Option String × W)
      (go : W → Result ProbeError (List LlmEvent) × W)
      → ((w : W) → Collected seen ms (go w).0)
      → Collected seen ms (unless_done outside x go).0
  unfolding unless_done Collected
  unless_done-Collected seen ms (some e, w) go h = tt
  unless_done-Collected seen ms (none, w) go h = h w

  -- The chunk that was read joins those that were seen.
  Collected-chunk :
      (seen : List Chunk) (c : Chunk) (raw : String) (ms : List Member)
      (r : Result ProbeError (List LlmEvent))
      → decode_chunk outside.decoder raw ≡ ok c
      → Collected (seen ++ c ∷ []) ms r
      → Collected seen (chunk raw ∷ ms) r
  unfolding Collected
  Collected-chunk seen c raw ms (err e) d h = tt
  Collected-chunk seen c raw ms (ok evs) d (cs, (ds, done)) = (
    c ∷ cs,
    (decodes_chunk d ds, subst (λ x. AllDone x evs) (append_assoc seen (c ∷ []) cs) done),
  )

  collect_chunk-Collected :
      (x : Result String Chunk) (raw : String) (ms : List Member) (seen : List Chunk)
      (accum : Accum) (events : List LlmEvent) (w : W)
      → AllBuilt seen accum
      → AllDone seen events
      → decode_chunk outside.decoder raw ≡ x
      → ((c : Chunk) (accum' : Accum) (events' : List LlmEvent) (w' : W)
          → AllBuilt (seen ++ c ∷ []) accum'
          → AllDone (seen ++ c ∷ []) events'
          → Collected (seen ++ c ∷ []) ms (collect_members outside ms accum' events' w').0)
      → Collected seen
          (chunk raw ∷ ms)
          (after_chunk outside
            (x >>= λ c. ok (apply_chunk c accum))
            events
            w
            (λ accum' events' w'. collect_members outside ms accum' events' w')).0
  unfolding after_chunk Collected
  collect_chunk-Collected (err e) raw ms seen accum events w built done d rest = tt
  collect_chunk-Collected (ok c) raw ms seen accum events w built done d rest =
      let st = apply_chunk-Steps seen accum built c in
      let r = apply_chunk c accum in
      let (evs, w') = emit outside r.1 events w in
      Collected-chunk seen c raw ms _ d (
        rest c r.0 _ _ st.open_uses
          (emit-AllDone (seen ++ c ∷ []) r r.1 events w st refl (λ tu m. followed c (done tu m))))

  collect_members-Collected :
      (ms : List Member) (seen : List Chunk) (accum : Accum) (events : List LlmEvent) (w : W)
      → AllBuilt seen accum
      → AllDone seen events
      → Collected seen ms (collect_members outside ms accum events w).0
  unfolding collect_members handle_anthropic_chunk Collected
  collect_members-Collected [] seen accum events w built done =
      ([], (decodes_nil, subst (λ x. AllDone x events) (sym (append-nil seen)) done))
  collect_members-Collected (other_member t ∷ ms) seen accum events w built done =
      unless_done-Collected seen (other_member t ∷ ms) (outside.ctx_err w) _ (λ w'. tt)
  collect_members-Collected (chunk raw ∷ ms) seen accum events w built done =
      unless_done-Collected seen (chunk raw ∷ ms) (outside.ctx_err w) _ (λ w'.
        collect_chunk-Collected (decode_chunk outside.decoder raw) raw ms seen accum events w' built
          done refl
          (λ c accum' events' w''.
            collect_members-Collected ms (seen ++ c ∷ []) accum' events' w''))

  -- A model that passed: the stream that it answered, what the stream's chunks are, and the call of
  -- the tool that they complete.
  pub record Passed (id : String) (w : W) : Type 0 where
    payload : String
    stream : ResponseStream
    after : W
    built : outside.build_payload id ≡ ok payload
    answered : outside.invoke id payload w ≡ (ok stream, after)
    unbroken : stream.stream_err ≡ none
    chunks : List Chunk
    decoded : Decodes outside.decoder stream.members chunks
    called : LlmToolUse
    completed : Completed chunks called
    keeps : IsCalled outside.is_valid_json called

  in_contract-none : (o : Option ContractViolation) → in_contract outside o ≡ none → o ≡ none
  unfolding in_contract
  in_contract-none none h = refl
  in_contract-none (some v) h = absurd (ground arith)

  judge-IsCalled :
      (ms : List Member) (r : Result ProbeError (List LlmEvent)) (e : Option String) (w : W)
      → Collected [] ms r
      → (judge outside (drained outside e (r, w))).0 ≡ none
      → (e ≡ none)
        × ((cs : List Chunk) × (Decodes outside.decoder ms cs
              × ((tu : LlmToolUse) × (Completed cs tu × IsCalled outside.is_valid_json tu))))
  unfolding judge drained in_contract Collected
  judge-IsCalled ms (err x) none w c h = absurd (ground arith)
  judge-IsCalled ms (err x) (some e) w c h = absurd (ground arith)
  judge-IsCalled ms (ok evs) (some e) w c h = absurd (ground arith)
  judge-IsCalled ms (ok evs) none w (cs, (ds, done)) h =
      let (tu, (m, k)) =
        verify_tool_probe-IsCalled outside.is_valid_json evs (in_contract-none _ h) in
      (refl, (cs, (ds, (tu, (done tu m, k)))))

  invoked-Passed :
      (id payload : String) (w : W) (x : Result String ResponseStream × W)
      → outside.build_payload id ≡ ok payload
      → outside.invoke id payload w ≡ x
      → (invoked outside x).0 ≡ none
      → Passed id w
  unfolding invoked collect_probe_events lookup
  invoked-Passed id payload w (err e, w') b i h = absurd (ground arith)
  invoked-Passed id payload w (ok s, w') b i h =
      let r = collect_members outside s.members [] [] w' in
      let (u, (cs, (ds, (tu, (c, k))))) =
        judge-IsCalled s.members r.0 s.stream_err r.1
          (collect_members-Collected s.members [] [] [] w' (λ j t l. absurd (ground arith))
            (λ t m. elim m [ ]))
          h in
      record {
        payload = payload;
        stream = s;
        after = w';
        built = b;
        answered = i;
        unbroken = u;
        chunks = cs;
        decoded = ds;
        called = tu;
        completed = c;
        keeps = k;
      }

  with_payload-Passed :
      (r : Result String String) (id : String) (w : W)
      → outside.build_payload id ≡ r
      → (with_payload outside r id w).0 ≡ none
      → Passed id w
  unfolding with_payload
  with_payload-Passed (err e) id w b h = absurd (ground arith)
  with_payload-Passed (ok payload) id w b h =
      invoked-Passed id payload w (outside.invoke id payload w) b refl h

  -- A model passes the probe only if it answers with a stream that ends without an error, all of
  -- whose members are chunks that decode, and whose chunks complete a call of the tool `echo`: its
  -- block starts with that name, the partial texts until it stops, joined, are its input, and the
  -- input is valid JSON and not empty.
  pub validate_model-Passed :
      (id : String) (w : W) → (validate_model outside id w).0 ≡ none → Passed id w
  unfolding validate_model
  validate_model-Passed id w h = with_payload-Passed (outside.build_payload id) id w refl h
