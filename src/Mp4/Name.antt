-- ===== src/Mp4/Name.antt =====
-- The names of boxes, brands and handlers in src/mp4_muxer.cpp and src/dash_muxer.cpp, in ASCII.
use tms.Prelude.{ℕ, List, [], ◌∷◌}

abbrev pub ftyp : List ℕ
ftyp = 0x66 ∷ 0x74 ∷ 0x79 ∷ 0x70 ∷ []

abbrev pub isom : List ℕ
isom = 0x69 ∷ 0x73 ∷ 0x6F ∷ 0x6D ∷ []

abbrev pub iso6 : List ℕ
iso6 = 0x69 ∷ 0x73 ∷ 0x6F ∷ 0x36 ∷ []

abbrev pub iso2 : List ℕ
iso2 = 0x69 ∷ 0x73 ∷ 0x6F ∷ 0x32 ∷ []

abbrev pub avc1 : List ℕ
avc1 = 0x61 ∷ 0x76 ∷ 0x63 ∷ 0x31 ∷ []

abbrev pub mp41 : List ℕ
mp41 = 0x6D ∷ 0x70 ∷ 0x34 ∷ 0x31 ∷ []

abbrev pub dash : List ℕ
dash = 0x64 ∷ 0x61 ∷ 0x73 ∷ 0x68 ∷ []

abbrev pub free : List ℕ
free = 0x66 ∷ 0x72 ∷ 0x65 ∷ 0x65 ∷ []

abbrev pub moov : List ℕ
moov = 0x6D ∷ 0x6F ∷ 0x6F ∷ 0x76 ∷ []

abbrev pub mdat : List ℕ
mdat = 0x6D ∷ 0x64 ∷ 0x61 ∷ 0x74 ∷ []

abbrev pub mvhd : List ℕ
mvhd = 0x6D ∷ 0x76 ∷ 0x68 ∷ 0x64 ∷ []

abbrev pub trak : List ℕ
trak = 0x74 ∷ 0x72 ∷ 0x61 ∷ 0x6B ∷ []

abbrev pub tkhd : List ℕ
tkhd = 0x74 ∷ 0x6B ∷ 0x68 ∷ 0x64 ∷ []

abbrev pub edts : List ℕ
edts = 0x65 ∷ 0x64 ∷ 0x74 ∷ 0x73 ∷ []

abbrev pub elst : List ℕ
elst = 0x65 ∷ 0x6C ∷ 0x73 ∷ 0x74 ∷ []

abbrev pub mdia : List ℕ
mdia = 0x6D ∷ 0x64 ∷ 0x69 ∷ 0x61 ∷ []

abbrev pub mdhd : List ℕ
mdhd = 0x6D ∷ 0x64 ∷ 0x68 ∷ 0x64 ∷ []

abbrev pub hdlr : List ℕ
hdlr = 0x68 ∷ 0x64 ∷ 0x6C ∷ 0x72 ∷ []

abbrev pub vide : List ℕ
vide = 0x76 ∷ 0x69 ∷ 0x64 ∷ 0x65 ∷ []

abbrev pub soun : List ℕ
soun = 0x73 ∷ 0x6F ∷ 0x75 ∷ 0x6E ∷ []

abbrev pub minf : List ℕ
minf = 0x6D ∷ 0x69 ∷ 0x6E ∷ 0x66 ∷ []

abbrev pub vmhd : List ℕ
vmhd = 0x76 ∷ 0x6D ∷ 0x68 ∷ 0x64 ∷ []

abbrev pub smhd : List ℕ
smhd = 0x73 ∷ 0x6D ∷ 0x68 ∷ 0x64 ∷ []

abbrev pub dinf : List ℕ
dinf = 0x64 ∷ 0x69 ∷ 0x6E ∷ 0x66 ∷ []

abbrev pub dref : List ℕ
dref = 0x64 ∷ 0x72 ∷ 0x65 ∷ 0x66 ∷ []

abbrev pub stbl : List ℕ
stbl = 0x73 ∷ 0x74 ∷ 0x62 ∷ 0x6C ∷ []

abbrev pub stsd : List ℕ
stsd = 0x73 ∷ 0x74 ∷ 0x73 ∷ 0x64 ∷ []

abbrev pub mp4a : List ℕ
mp4a = 0x6D ∷ 0x70 ∷ 0x34 ∷ 0x61 ∷ []

abbrev pub esds : List ℕ
esds = 0x65 ∷ 0x73 ∷ 0x64 ∷ 0x73 ∷ []

abbrev pub avcc : List ℕ
avcc = 0x61 ∷ 0x76 ∷ 0x63 ∷ 0x43 ∷ []

abbrev pub pasp : List ℕ
pasp = 0x70 ∷ 0x61 ∷ 0x73 ∷ 0x70 ∷ []

abbrev pub stts : List ℕ
stts = 0x73 ∷ 0x74 ∷ 0x74 ∷ 0x73 ∷ []

abbrev pub ctts : List ℕ
ctts = 0x63 ∷ 0x74 ∷ 0x74 ∷ 0x73 ∷ []

abbrev pub stsc : List ℕ
stsc = 0x73 ∷ 0x74 ∷ 0x73 ∷ 0x63 ∷ []

abbrev pub stco : List ℕ
stco = 0x73 ∷ 0x74 ∷ 0x63 ∷ 0x6F ∷ []

abbrev pub stsz : List ℕ
stsz = 0x73 ∷ 0x74 ∷ 0x73 ∷ 0x7A ∷ []

abbrev pub mvex : List ℕ
mvex = 0x6D ∷ 0x76 ∷ 0x65 ∷ 0x78 ∷ []

abbrev pub mehd : List ℕ
mehd = 0x6D ∷ 0x65 ∷ 0x68 ∷ 0x64 ∷ []

abbrev pub trex : List ℕ
trex = 0x74 ∷ 0x72 ∷ 0x65 ∷ 0x78 ∷ []

abbrev pub url : List ℕ
url = 0x75 ∷ 0x72 ∷ 0x6C ∷ 0x20 ∷ []

abbrev pub styp : List ℕ
styp = 0x73 ∷ 0x74 ∷ 0x79 ∷ 0x70 ∷ []

abbrev pub msms : List ℕ
msms = 0x6D ∷ 0x73 ∷ 0x6D ∷ 0x73 ∷ []

abbrev pub msdh : List ℕ
msdh = 0x6D ∷ 0x73 ∷ 0x64 ∷ 0x68 ∷ []

abbrev pub msix : List ℕ
msix = 0x6D ∷ 0x73 ∷ 0x69 ∷ 0x78 ∷ []

abbrev pub sidx : List ℕ
sidx = 0x73 ∷ 0x69 ∷ 0x64 ∷ 0x78 ∷ []

abbrev pub moof : List ℕ
moof = 0x6D ∷ 0x6F ∷ 0x6F ∷ 0x66 ∷ []

abbrev pub mfhd : List ℕ
mfhd = 0x6D ∷ 0x66 ∷ 0x68 ∷ 0x64 ∷ []

abbrev pub traf : List ℕ
traf = 0x74 ∷ 0x72 ∷ 0x61 ∷ 0x66 ∷ []

abbrev pub tfhd : List ℕ
tfhd = 0x74 ∷ 0x66 ∷ 0x68 ∷ 0x64 ∷ []

abbrev pub trun : List ℕ
trun = 0x74 ∷ 0x72 ∷ 0x75 ∷ 0x6E ∷ []

abbrev pub tfdt : List ℕ
tfdt = 0x74 ∷ 0x66 ∷ 0x64 ∷ 0x74 ∷ []

abbrev pub audio_handler : List ℕ
audio_handler =
    0x41 ∷ 0x75 ∷ 0x64 ∷ 0x69 ∷ 0x6F ∷ 0x48 ∷ 0x61 ∷ 0x6E ∷ 0x64 ∷ 0x6C ∷ 0x65 ∷ 0x72 ∷ 0 ∷ []

abbrev pub video_handler : List ℕ
video_handler =
    0x56 ∷ 0x69 ∷ 0x64 ∷ 0x65 ∷ 0x6F ∷ 0x48 ∷ 0x61 ∷ 0x6E ∷ 0x64 ∷ 0x6C ∷ 0x65 ∷ 0x72 ∷ 0 ∷ []
