-- ===== src/Kfuncs.antt =====
-- Kernel/src/kfuncs.c: the kernel's own functions on characters, numbers and texts.
mod Chars
mod Parse
mod Numerals
mod Print
mod Reverse
mod Printing
mod Texts
mod ReadBack
mod Signed
mod Strings
mod Clock
mod Compare
mod Copy
mod Uint
mod Tests
