-- ===== src/Tests/Keyboard.antt =====
-- Examples for the keyboard.
use bkernel.Base.{◌≡◌, refl, [], ◌∷◌, false, arith}
use bkernel.Kernel.{Kernel, fault}
use bkernel.Kbd.Queue.{kbd_enqueue}
use bkernel.Kbd.Waiting.{Enqueued, kbd_enqueue-Enqueued, Dequeued, kbd_dequeue-Dequeued}
use bkernel.Kbd.Scan.{kbtoa}
use bkernel.Kbd.Extended.{kbtoa-extended}
use bkernel.Tests.Sample.{kernel, ready-IsQueue, senders-IsQueue}

abbrev reading : Kernel
reading = record kernel { kbd_q = 5 }

kbd_enqueue-Enqueued_example : Enqueued reading 4 (5 ∷ [])
kbd_enqueue-Enqueued_example =
    kbd_enqueue-Enqueued reading 4 (5 ∷ []) senders-IsQueue (omega arith) (omega arith)

kbd_dequeue-Dequeued_example : Dequeued reading false (5 ∷ []) (1 ∷ 2 ∷ [])
kbd_dequeue-Dequeued_example =
    kbd_dequeue-Dequeued reading false (5 ∷ []) (1 ∷ 2 ∷ []) refl senders-IsQueue ready-IsQueue
      (omega arith)

kbd_enqueue_idle : kbd_enqueue 4 kernel ≡ fault
unfolding kbd_enqueue
kbd_enqueue_idle = refl

kbtoa-extended_example : (kbtoa 0 0xe0 kernel.scan).1.extended ≡ false
kbtoa-extended_example = kbtoa-extended 0 0xe0 kernel.scan refl
