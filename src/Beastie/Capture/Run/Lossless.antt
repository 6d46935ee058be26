-- ===== src/Beastie/Capture/Run/Lossless.antt =====
-- No packet is lost as long as a capture runs, and a signal ends it.
use beastie_boy.Beastie.PcapWriter.{Packet, Libpcap}
use beastie_boy.Beastie.State.{Config}
use beastie_boy.Beastie.Capture.{World, Burst, on_interrupt}
use beastie_boy.Beastie.Capture.Account.{dumped}
use beastie_boy.Beastie.Capture.Interrupt.{on_interrupt_lem}
use beastie_boy.Beastie.Capture.Run.{
  CaptureEvent, connected, disconnected, interrupt, signal, handle_signal, after_event,
  after_events, Poll, LoopEnd, waiting, left_by_stop, left_by_error, main_loop, Finish, running,
  finished, cleanup, summarise, after_loop, run_capture, is_poll_error, Made, made, refused,
  ready_world, on_connect, on_disconnect,
}
use beastie_boy.Beastie.Capture.Lines.{Unprinted}
use beastie_boy.Beastie.Capture.Run.Events.{on_connect_inv}
use beastie_boy.Prelude.{
  true, false, List, [], ◌∷◌, ◌++◌, ◌≡◌, ◌∙◌, arith, ◌==◌, if◌then◌else◌, Bool-cases, inl, inr,
  append_assoc, append-nil, sym, ap,
}

-- The packets that libmemif delivered, in the order of their bursts.
abbrev pub packets_of : CaptureEvent → List Packet
packets_of (interrupt b) = if b.rx_error == 0 then b.packets else []
packets_of _ = []

pub received : List CaptureEvent → List Packet
received [] = []
received (e ∷ events) = packets_of e ++ received events

pub received_all : List Poll → List Packet
received_all [] = []
received_all (p ∷ polls) = received p.events ++ received_all polls

-- What a run of events does while the capture goes on.
pub record Lossless (packets : List Packet) (w w' : World) : Type 0 where
  pub still : w.state.keep_running ≡ true
  pub complete : dumped w'.writer.calls ≡ dumped w.writer.calls ++ packets

Lossless-refl : (w : World) → w.state.keep_running ≡ true → Lossless [] w w
Lossless-refl w h = record { still = h; complete = sym (append-nil (dumped w.writer.calls)) }

Lossless-Unprinted : (packets : List Packet) (w : World) → Unprinted (Lossless packets w)
Lossless-Unprinted packets w w' lines p = record { still = p.still; complete = p.complete }

Lossless-append :
    {ps qs : List Packet} {u v w : World}
    → Lossless ps u v
    → Lossless qs v w
    → Lossless (ps ++ qs) u w
Lossless-append {ps} {qs} {u} p q = record {
  still = p.still;
  complete = q.complete ∙ rw p.complete (append_assoc (dumped u.writer.calls) ps qs);
}

interrupt-Lossless :
    (lib : Libpcap) (b : Burst) (w : World)
    → (on_interrupt lib b w).1.state.keep_running ≡ true
    → Lossless (packets_of (interrupt b)) w (on_interrupt lib b w).1
interrupt-Lossless lib b w h =
    let p = on_interrupt_lem lib b w in
    elim (Bool-cases (b.rx_error == 0)) [
      | inl z ↦ rw z (record {
        still = p.still h;
        complete = p.written ∙ ap (λ l. dumped w.writer.calls ++ l) (p.all_taken (ground arith) h);
      })
      | inr nz ↦ rw nz (
          rw (p.refused (λ z. ground arith)).1
            (Lossless-Unprinted [] w w _ (Lossless-refl w (p.still h))))
    ]

after_event-Lossless :
    (lib : Libpcap) (e : CaptureEvent) (w : World)
    → (after_event lib e w).state.keep_running ≡ true
    → Lossless (packets_of e) w (after_event lib e w)
unfolding after_event handle_signal on_disconnect
after_event-Lossless lib (connected err) w h =
    on_connect_inv (λ w'. w'.state.keep_running ≡ true → Lossless [] w w') err
      (λ w' lines p running. Lossless-Unprinted [] w w' lines (p running)) w (Lossless-refl w) h
after_event-Lossless lib (disconnected err) w h = Lossless-Unprinted [] w w _ (Lossless-refl w h)
after_event-Lossless lib signal w h = absurd (cc)
after_event-Lossless lib (interrupt b) w h = interrupt-Lossless lib b w h

pub after_events-Lossless :
    (lib : Libpcap) (events : List CaptureEvent) (w : World)
    → (after_events lib events w).state.keep_running ≡ true
    → Lossless (received events) w (after_events lib events w)
unfolding after_events received
after_events-Lossless lib [] w h = Lossless-refl w h
after_events-Lossless lib (e ∷ events) w h =
    let q = after_events-Lossless lib events (after_event lib e w) h in
    Lossless-append (after_event-Lossless lib e w q.still) q

abbrev pub WhileWaiting : (World → Type 0) → LoopEnd → Type 0
WhileWaiting P (waiting w) = P w
WhileWaiting P _ = Unit

pub WhileWaiting-map :
    (P Q : World → Type 0) (l : LoopEnd)
    → ((w : World) → P w → Q w)
    → WhileWaiting P l
    → WhileWaiting Q l
WhileWaiting-map P Q (waiting w) f p = f w p
WhileWaiting-map P Q _ f p = tt

main_loop-Lossless :
    (lib : Libpcap) (polls : List Poll) (w : World)
    → WhileWaiting (Lossless (received_all polls) w) (main_loop lib polls w)
unfolding main_loop received_all
main_loop-Lossless lib [] w = elim (Bool-cases w.state.keep_running) [
  | inl e ↦ simp e (Lossless-refl w e)
  | inr e ↦ simp e tt
]
main_loop-Lossless lib (p ∷ polls) w =
    let w' = after_events lib p.events w in
    elim (Bool-cases w.state.keep_running) [
      | inl e ↦ elim (Bool-cases w'.state.keep_running) [
        | inl f ↦ elim (Bool-cases (is_poll_error p.result)) [
          | inl g ↦ simp (e, f, g) tt
          | inr g ↦
              simp (e, f, g)
                (WhileWaiting-map (Lossless (received_all polls) w') _ (main_loop lib polls w')
                  (λ v. Lossless-append (after_events-Lossless lib p.events w f))
                  (main_loop-Lossless lib polls w'))
        ]
        | inr f ↦ simp (e, f) tt
      ]
      | inr e ↦ simp e tt
    ]

abbrev pub WhileRunning : (World → Type 0) → Finish → Type 0
WhileRunning P (running w) = P w
WhileRunning P (finished rc w calls) = Unit

pub after_loop-WhileRunning :
    (P : World → Type 0) (lib : Libpcap) (l : LoopEnd)
    → WhileWaiting P l
    → WhileRunning P (after_loop lib l)
unfolding after_loop summarise cleanup
after_loop-WhileRunning P lib (waiting w) p = p
after_loop-WhileRunning P lib (left_by_stop w) p = tt
after_loop-WhileRunning P lib (left_by_error w) p = tt

-- As long as a capture runs, the file holds every packet that libmemif has delivered, in order.
pub run_capture-lossless :
    (lib : Libpcap) (config : Config) (socket_made connection_made : Made) (polls : List Poll)
    → WhileRunning
        (λ w. dumped w.writer.calls ≡ received_all polls)
        (run_capture lib config socket_made connection_made polls)
unfolding run_capture cleanup dumped
run_capture-lossless lib config made made polls =
    after_loop-WhileRunning _ lib (main_loop lib polls (ready_world config)) (
      WhileWaiting-map (Lossless (received_all polls) (ready_world config)) _
        (main_loop lib polls (ready_world config)) (λ w p. p.complete)
        (main_loop-Lossless lib polls (ready_world config)))
run_capture-lossless lib config made (refused err) polls = tt
run_capture-lossless lib config (refused err) c polls = tt

-- Some event of the poll is a signal.
abbrev pub HasSignal : List CaptureEvent → Type 0
HasSignal [] = ⊥
HasSignal (signal ∷ events) = Unit
HasSignal (_ ∷ events) = HasSignal events

stops : (w : World) → ¬ ((handle_signal w).state.keep_running ≡ true)
unfolding handle_signal
stops w e = cc

after_events-HasSignal :
    (lib : Libpcap) (events : List CaptureEvent) (w : World)
    → HasSignal events
    → (after_events lib events w).state.keep_running ≡ false
unfolding after_events after_event
after_events-HasSignal lib [] w h = absurd h
after_events-HasSignal lib (signal ∷ events) w h =
    elim (Bool-cases (after_events lib events (handle_signal w)).state.keep_running) [
      | inl e ↦ absurd (stops w (after_events-Lossless lib events (handle_signal w) e).still)
      | inr e ↦ e
    ]
after_events-HasSignal lib (connected err ∷ events) w h =
    after_events-HasSignal lib events (on_connect err w).1 h
after_events-HasSignal lib (disconnected err ∷ events) w h =
    after_events-HasSignal lib events (on_disconnect err w).1 h
after_events-HasSignal lib (interrupt b ∷ events) w h =
    after_events-HasSignal lib events (on_interrupt lib b w).1 h

main_loop-HasSignal :
    (lib : Libpcap) (before after : List Poll) (p : Poll) (w : World)
    → HasSignal p.events
    → WhileWaiting (λ w'. ⊥) (main_loop lib (before ++ (p ∷ after)) w)
unfolding main_loop
main_loop-HasSignal lib [] after p w h =
    let f = after_events-HasSignal lib p.events w h in
    elim (Bool-cases w.state.keep_running) [ inl e ↦ simp (e, f) tt | inr e ↦ simp e tt ]
main_loop-HasSignal lib (q ∷ before) after p w h =
    let w' = after_events lib q.events w in
    elim (Bool-cases w.state.keep_running) [
      | inl e ↦ elim (Bool-cases w'.state.keep_running) [
        | inl f ↦ elim (Bool-cases (is_poll_error q.result)) [
          | inl g ↦ simp (e, f, g) tt
          | inr g ↦ simp (e, f, g) (main_loop-HasSignal lib before after p w' h)
        ]
        | inr f ↦ simp (e, f) tt
      ]
      | inr e ↦ simp e tt
    ]

-- SIGINT or SIGTERM ends a capture: once a poll has returned during which one came, it runs no more.
pub run_capture-HasSignal :
    (lib : Libpcap) (config : Config) (socket_made connection_made : Made)
    (before after : List Poll) (p : Poll)
    → HasSignal p.events
    → WhileRunning
        (λ w. ⊥)
        (run_capture lib config socket_made connection_made (before ++ (p ∷ after)))
unfolding run_capture cleanup
run_capture-HasSignal lib config made made before after p h =
    after_loop-WhileRunning (λ w. ⊥) lib _
      (main_loop-HasSignal lib before after p (ready_world config) h)
run_capture-HasSignal lib config made (refused err) before after p h = tt
run_capture-HasSignal lib config (refused err) c before after p h = tt
