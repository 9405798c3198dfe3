-- ===== src/Stage2/Fdc/Init.antt =====
-- FDC_Init of FDC.c on a controller that always requests a byte.
use red_fox32_old.Base.{◌≡◌, ◌∙◌, refl, false, some}
use red_fox32_old.Stage2.Screen.{Shown, Shown-trans}
use red_fox32_old.Stage2.Fdc.{Fdc, Board, dma_init, fdc_init}
use red_fox32_old.Stage2.Fdc.Ready.{IsListening, write_fifo-Sends, read_fifo-Reads}

pub fdc_init-returns :
    (b : Board) (f : Fdc)
    → IsListening b
    → (f' : Fdc) × (fdc_init b f ≡ some f') × (f'.drive ≡ 0) × Shown f.screen f'.screen
unfolding fdc_init dma_init
fdc_init-returns b f ready =
    let f0 = dma_init (record f { drive = 0; irq_received = false }) in
    let (f1, e1, s1, k1) = write_fifo-Sends b ready 0x94 f0 in
    let (f2, e2, s2, k2) = read_fifo-Reads b ready f1 in
    (f2, rw (e1, e2) refl, k2.drive ∙ k1.drive, Shown-trans k1.shown k2.shown)
