-- ===== src/Lib.antt =====
-- A verification library for the C code of this repository: the portable components under
-- code/portable, the drivers under code/stm32f4, the start-up code, the UART driver and the example
-- programs under code/qemu-cortex-m, and the calendar of the RTC examples.
--
-- Parts of the program, and the files that model them:
-- * code/portable/ringbuf/ringbuf.h, the lock-free ring buffer: Ringbuf.antt has `ringbuf_t` as a
--   record and rb_init, rb_count, rb_empty, rb_full, rb_put and rb_get as functions. Ringbuf/Queue is
--   the bounded queue that the buffer is compared with. Ringbuf/Spsc runs rb_put and rb_get against
--   each other, one access of a shared field at a time, as an interrupt handler and a main loop do.
-- * code/portable/frame, the byte-stream parser and its checksum: Crc.antt has
--   crc16_ccitt_update and crc16_ccitt, Frame.antt has `frame_parser_t`, frame_reset and
--   frame_feed, whose switch is `feed_in`. Frame/Wire has the sender of
--   code/qemu-cortex-m/06-protocol-state-machine/main.c (crc_of and inject_frame: the bytes that it
--   hands to `handle`), and an independent description of a frame, `wire`.
-- * code/portable/can/isotp.h and isotp.c, the ISO 15765-2 transport: Isotp/Rx is the receiver, with a
--   function for each case of the switch of isotp_rx_frame; Isotp/Tx is the sender, with
--   isotp_tx_begin, isotp_tx_next and isotp_tx_flow_control. Isotp/Rx/Spells says, without either
--   side, which message a sequence of frames ends in; Isotp/Tx/Calls makes calls of the sender in
--   any order. Isotp/Link joins sender and receiver as round_trip of code/host-tests/test_isotp.c
--   does: the receiver's flow control frames clear the sender.
-- * code/portable/can/can_bittiming.h and can_bittiming.c: Bittiming.antt has the two nested loops of
--   can_solve_bittiming and can_max_bus_length_m; Bittiming/Rank says what a timing must satisfy
--   and how two are compared.
-- * peripherals/rtc-examples/rtc_math.h, the calendar: Rtc.antt has the validation of dates, packed BCD,
--   and the conversions between dates and seconds since 2000.
-- * code/stm32f4/i2c_master.c, the I2C master: I2c.antt runs each function over the history of register
--   accesses; what a read returns is a parameter, a function of that history.
-- * code/stm32f4/spi_master.c, the SPI master: Spi.antt, in the same way. Spi/Prescaler is about the
--   loop that chooses the divider, Spi/Wait about the bounded waits, Spi/Duplex about transfers.
-- * code/qemu-cortex-m/common/uart.c, the UART: Uart.antt has the bytes that uart_puts, uart_put_u32,
--   uart_put_hex32 and uart_put_hex8 hand to uart_putc, and the baud divisor; Uart/Wire has
--   uart_init, uart_putc and uart_getc_nonblocking over the history of register accesses.
-- * code/qemu-cortex-m/common/lm3s6965.h and semihost.h, the board: Board.antt has the registers by their
--   addresses, Board/Critical irq_save and irq_restore over PRIMASK, and Board/Semihost semihost_exit
--   over a host that is a parameter.
-- * code/qemu-cortex-m/common/startup.c, start-up: Startup.antt has the vector table and the two loops of
--   Reset_Handler over memory, a function from addresses to words.
-- * the main.c of each example of code/qemu-cortex-m: Examples/MemoryMap is 01, Examples/Timebase 02,
--   Examples/Priority 03, Examples/Stream 04, Examples/Faults 05 and Examples/Protocol 06. They use
--   the models of the ring buffer, the parser, the start-up code and the UART's texts. An interrupt
--   is a step between two accesses of the main loop (04, SysTick and the receive interrupt), a number
--   of handler calls at the places where they matter (02, 03), or a call of its own (06). In 03
--   the interrupts are taken that the registers written by main enable, pend and rank. In 05 the
--   exception that the processor takes is an argument. The `main` of 03, 05 and 06 starts after
--   uart_init, which is Uart/Wire's `init`.
--
-- How the code is modelled. A C integer is a natural number, and each cast or arithmetic step of its
-- type is written out as a remainder (Base/Word); an array is a list (Base/Array), a NULL pointer is
-- `none`, and what a function changes through a pointer is part of its result. A read or write
-- outside a list does nothing; the theorems on bounds say that the code makes none.
--
-- Rounds of loops. `exchange` has the 20000 rounds of the C loop; a message needs one round for each
-- frame that it is sent in. The loops of the bit timing search have two rounds more than the upper limit of
-- their counter, which is enough when the counter does not wrap. `take_off` has 400 rounds for the
-- years of the calendar's cycle and 12 for the months, as many
-- as there are. The I2C and SPI waits have the 100000 rounds of the C loop, and the divider's loop has a
-- round for each divider. A delay has a round more than its ticks, since each sleep lasts one tick at
-- least; the loops of Reset_Handler have more rounds than the address that they end at; the
-- probe for priority bits has one more than a byte has bits. The waits for the UART and the loop
-- over its receive queue take the rounds as an argument. Where rounds run out the result is `none`.
--
-- Not modelled: the accesses of UART0 in the handlers of 04 and 06 that acknowledge the interrupt; a
-- character typed while 03 runs; what the instructions that 05 provokes a fault with do, which C leaves undefined; the registers of
-- lm3s6965.h that no code uses; host tests other than round_trip; the Python scripts. In 02 the ticks
-- come during the sleeps only. The compiler's and the processor's memory ordering is not
-- modelled: the steps of the ring buffer take effect in program order, as its fences demand.
pub mod Base
pub mod Board
pub mod Bittiming
pub mod Examples
pub mod Ringbuf
pub mod Crc
pub mod Frame
pub mod Isotp
pub mod I2c
pub mod Rtc
pub mod Spi
pub mod Startup
pub mod Uart
