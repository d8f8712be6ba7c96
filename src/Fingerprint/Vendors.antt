-- ===== src/Fingerprint/Vendors.antt =====
-- crates/nac-fingerprint/src/oui.rs: the prefixes of MAC addresses that the vendors have, each list
-- in the order of the source.
use lentropy.Common.{List, [], ◌∷◌, String}

abbrev pub apple : List String
apple =
    "000393" ∷ "000502" ∷ "000A27" ∷ "000A95" ∷ "000D93" ∷ "001124" ∷ "001451" ∷ "0016CB" ∷ "0017F2"
    ∷ "0019E3" ∷ "001B63" ∷ "001CB3" ∷ "001D4F" ∷ "001E52" ∷ "001EC2" ∷ "001F5B" ∷ "001FF3"
    ∷ "0021E9" ∷ "002241" ∷ "002312" ∷ "002332" ∷ "00236C" ∷ "0023DF" ∷ "002436" ∷ "002500"
    ∷ "00254B" ∷ "0025BC" ∷ "002608" ∷ "0026B9" ∷ "0026BB" ∷ "003065" ∷ "040CCE" ∷ "041552"
    ∷ "04E536" ∷ "080007" ∷ "10405F" ∷ "109ADD" ∷ "10DDB1" ∷ "146090" ∷ "18AF61" ∷ "1C91DF"
    ∷ "20A2E4" ∷ "24A074" ∷ "283737" ∷ "2C1F23" ∷ "34159E" ∷ "34363B" ∷ "34C059" ∷ "380F4A"
    ∷ "3C0754" ∷ "3C2EFF" ∷ "400010" ∷ "40A6D9" ∷ "40D32D" ∷ "4488BB" ∷ "485D60" ∷ "4C3275"
    ∷ "4C8D79" ∷ "50BC96" ∷ "5404A6" ∷ "54AE27" ∷ "587F57" ∷ "5C59A8" ∷ "5CF938" ∷ "60D9A3"
    ∷ "60FB42" ∷ "64200C" ∷ "6476BA" ∷ "64A3CB" ∷ "68096C" ∷ "6C3E6D" ∷ "6C709F" ∷ "6CF049"
    ∷ "70480F" ∷ "704D7B" ∷ "70CD60" ∷ "74E2F5" ∷ "783A84" ∷ "7831C1" ∷ "7C04D0" ∷ "7CF05F"
    ∷ "7CE9D3" ∷ "80EA96" ∷ "84788B" ∷ "84FC8D" ∷ "880066" ∷ "8C7B9D" ∷ "8C8590" ∷ "8CFAB8"
    ∷ "90840D" ∷ "9027E4" ∷ "982966" ∷ "9C04EB" ∷ "9C20F6" ∷ "9C35EB" ∷ "9CF387" ∷ "A01789"
    ∷ "A01C0E" ∷ "A4C361" ∷ "A8667F" ∷ "A8BE27" ∷ "A8FAD8" ∷ "ACBC32" ∷ "ACDE48" ∷ "ACE4B5"
    ∷ "ACF2C5" ∷ "ACFDEC" ∷ "B03495" ∷ "B06582" ∷ "B09FBA" ∷ "B4F61C" ∷ "B819EC" ∷ "B85C93"
    ∷ "B8C75A" ∷ "BC3BAF" ∷ "BC4CC4" ∷ "BC926B" ∷ "C08997" ∷ "C42C03" ∷ "C82A14" ∷ "C86F1D"
    ∷ "CC08E0" ∷ "D09466" ∷ "D0A637" ∷ "D0C5F3" ∷ "D4619D" ∷ "D8004D" ∷ "D8BB2C" ∷ "DC2B2A"
    ∷ "DCA904" ∷ "E0B9BA" ∷ "E4CE8F" ∷ "E80688" ∷ "EC3586" ∷ "F07BCB" ∷ "F0DBF8" ∷ "F40F24"
    ∷ "F4F15A" ∷ "F81EDF" ∷ "FC253F" ∷ "FCFC48" ∷ []

abbrev pub samsung : List String
samsung =
    "0418D6" ∷ "08FC88" ∷ "0C1420" ∷ "183F47" ∷ "1C62B8" ∷ "200DB0" ∷ "240AC4" ∷ "2C4401" ∷ "34AA8B"
    ∷ "380AA8" ∷ "400E85" ∷ "48449C" ∷ "4844F7" ∷ "4C3C16" ∷ "4CACF7" ∷ "5051D8" ∷ "5C5187"
    ∷ "5CF821" ∷ "6017C8" ∷ "6C2F2C" ∷ "6C8336" ∷ "70F927" ∷ "74458A" ∷ "7825AD" ∷ "78D6F0"
    ∷ "80571A" ∷ "805181" ∷ "8471F8" ∷ "84A466" ∷ "8C71F8" ∷ "90F1AA" ∷ "9435A0" ∷ "9C0298"
    ∷ "A01081" ∷ "A07391" ∷ "A40CF3" ∷ "A81E84" ∷ "A8D3B7" ∷ "B047BF" ∷ "B47443" ∷ "B4EF39"
    ∷ "B814D5" ∷ "BC14EF" ∷ "C01173" ∷ "C0BDD1" ∷ "C47D46" ∷ "CC07AB" ∷ "D022BE" ∷ "D06396"
    ∷ "D87195" ∷ "DC7144" ∷ "E4B021" ∷ "E47CF9" ∷ "E8508B" ∷ "EC9BF3" ∷ "F047D0" ∷ "F47B5E"
    ∷ "F8042E" ∷ "FC0012" ∷ []

abbrev pub cisco : List String
cisco =
    "00000C" ∷ "000142" ∷ "000143" ∷ "000163" ∷ "000164" ∷ "000196" ∷ "000197" ∷ "0001C7" ∷ "0001C9"
    ∷ "0002FC" ∷ "000374" ∷ "000B45" ∷ "000BBE" ∷ "000CCE" ∷ "000D28" ∷ "000D29" ∷ "000D65"
    ∷ "000D6F" ∷ "000E08" ∷ "000E38" ∷ "000E39" ∷ "000E83" ∷ "000E84" ∷ "000E8F" ∷ "001010"
    ∷ "0011BB" ∷ "001120" ∷ "001185" ∷ "001201" ∷ "001310" ∷ "001483" ∷ "001601" ∷ "00176B"
    ∷ "001801" ∷ "001906" ∷ "001AA2" ∷ "001B0D" ∷ "001C0F" ∷ "001D45" ∷ "001D70" ∷ "001E13"
    ∷ "001E14" ∷ "001E7A" ∷ "001F26" ∷ "001F27" ∷ "001F6C" ∷ "001F9E" ∷ "002001" ∷ "00219B"
    ∷ "0021D8" ∷ "002255" ∷ "00238E" ∷ "002390" ∷ "002391" ∷ "002497" ∷ "002498" ∷ "0025B4"
    ∷ "0026CA" ∷ "002702" ∷ []

abbrev pub dell : List String
dell =
    "00065B" ∷ "000874" ∷ "000BDB" ∷ "000F1F" ∷ "001143" ∷ "00123F" ∷ "001372" ∷ "001422" ∷ "0015C5"
    ∷ "0016F0" ∷ "00188B" ∷ "0019B9" ∷ "001AA0" ∷ "001C23" ∷ "001D09" ∷ "001E4F" ∷ "001FD0"
    ∷ "002170" ∷ "002219" ∷ "0023AE" ∷ "0024E8" ∷ "002564" ∷ "14FEB5" ∷ "18A99B" ∷ "1C40AF"
    ∷ "205548" ∷ "24B6FD" ∷ "34E6AD" ∷ "3417EB" ∷ "5C260A" ∷ "74867A" ∷ "782BCB" ∷ "848589"
    ∷ "8851FB" ∷ "906048" ∷ "9844CF" ∷ "A4BADB" ∷ "B083FE" ∷ "B4966A" ∷ "C81F66" ∷ "D067E5"
    ∷ "D4BE36" ∷ "D4F557" ∷ "E09D31" ∷ "EC9A74" ∷ "F04DA2" ∷ "F8BC12" ∷ []

abbrev pub hp : List String
hp =
    "000B97" ∷ "000D9D" ∷ "000EB6" ∷ "00110A" ∷ "00166F" ∷ "001708" ∷ "001A4B" ∷ "001B78" ∷ "001CC4"
    ∷ "001E0B" ∷ "001F29" ∷ "002264" ∷ "002354" ∷ "002481" ∷ "0025B3" ∷ "0026F2" ∷ "28924A"
    ∷ "3091C1" ∷ "3CFDF0" ∷ "380202" ∷ "3C4A92" ∷ "3C98C9" ∷ "400FA3" ∷ "4436AC" ∷ "50657D"
    ∷ "5066AB" ∷ "58205F" ∷ "6805CA" ∷ "705A0F" ∷ "7452D3" ∷ "788CB5" ∷ "80C16E" ∷ "843600"
    ∷ "94571A" ∷ "9457A5" ∷ "A0D3C1" ∷ "B499BA" ∷ "C4346B" ∷ "C83A35" ∷ "D4C9EF" ∷ "D850E6"
    ∷ "E0071B" ∷ "E4115B" ∷ "E8393D" ∷ "F0921C" ∷ []

abbrev pub lenovo : List String
lenovo =
    "002590" ∷ "0022FA" ∷ "0050FA" ∷ "285012" ∷ "54EE75" ∷ "5CE0C5" ∷ "689C70" ∷ "70723C" ∷ "7C7A91"
    ∷ "84978D" ∷ "88703D" ∷ "98FA9B" ∷ "A076F0" ∷ "D4E8B2" ∷ "E8B4C8" ∷ "F0DEF1" ∷ []

abbrev pub intel : List String
intel =
    "000102" ∷ "001101" ∷ "001150" ∷ "001302" ∷ "001320" ∷ "0013CE" ∷ "0015FF" ∷ "001760" ∷ "0017C4"
    ∷ "001E65" ∷ "00224D" ∷ "002360" ∷ "00262F" ∷ "7085C2" ∷ "8086F2" ∷ "886B6F" ∷ "8C45CF"
    ∷ "946E49" ∷ "9C4E36" ∷ "A0369F" ∷ "A4C494" ∷ "AC7F3E" ∷ "B4B686" ∷ "B44BFE" ∷ "BCEE7B"
    ∷ "C0CB38" ∷ "E4B97A" ∷ "E8D4E0" ∷ "F4060D" ∷ []

abbrev pub microsoft : List String
microsoft =
    "00125A" ∷ "0015F2" ∷ "001DD8" ∷ "005056" ∷ "281878" ∷ "485073" ∷ "54271E" ∷ "7C1E52" ∷ "985FD3"
    ∷ "BC8385" ∷ "DCF505" ∷ []

abbrev pub google : List String
google =
    "3C5AB4" ∷ "54600A" ∷ "68D475" ∷ "A47733" ∷ "D43D7E" ∷ "F88FCA" ∷ "A4773A" ∷ "1CB72C" ∷ "48D705"
    ∷ []

abbrev pub amazon : List String
amazon =
    "0C7A37" ∷ "147590" ∷ "18742E" ∷ "34D270" ∷ "40B4CD" ∷ "44650D" ∷ "680571" ∷ "6C5697" ∷ "78D94F"
    ∷ "84D6D0" ∷ "A002DC" ∷ "B47C9C" ∷ "F0272D" ∷ "FC65DE" ∷ []

abbrev pub netgear : List String
netgear =
    "001E2A" ∷ "00224D" ∷ "20E52A" ∷ "28C68E" ∷ "2CB05D" ∷ "44940C" ∷ "4CE676" ∷ "5C3316" ∷ "6CB0CE"
    ∷ "80371A" ∷ "84189F" ∷ "A040A0" ∷ "C0FF28" ∷ "C4049B" ∷ []

abbrev pub tp_link : List String
tp_link =
    "10FEED" ∷ "14CC20" ∷ "1C3BF3" ∷ "20DC93" ∷ "28D244" ∷ "3C46D8" ∷ "50BD5F" ∷ "5C628B" ∷ "60E327"
    ∷ "6466B3" ∷ "688FF7" ∷ "74DA38" ∷ "7CB5C5" ∷ "84162B" ∷ "8CAAB5" ∷ "90F652" ∷ "94D9B3"
    ∷ "98DABC" ∷ "9C5322" ∷ "A84006" ∷ "B00C86" ∷ "C46E1F" ∷ "E8DE27" ∷ "F4EC38" ∷ "F8D111" ∷ []

abbrev pub asus : List String
asus =
    "000EA6" ∷ "049226" ∷ "08606E" ∷ "107B44" ∷ "1C872C" ∷ "2C56DC" ∷ "30855B" ∷ "3497F6" ∷ "38D547"
    ∷ "40167E" ∷ "4CE67F" ∷ "60A44C" ∷ "702E22" ∷ "74D02B" ∷ "7C1EA0" ∷ "88D7F6" ∷ "AC220B"
    ∷ "BC946B" ∷ "C860EB" ∷ "E03F49" ∷ "F04261" ∷ []

abbrev pub vmware : List String
vmware = "000C29" ∷ "000569" ∷ "001C14" ∷ []

abbrev pub broadcom : List String
broadcom =
    "000AF7" ∷ "001018" ∷ "001AA0" ∷ "0050EF" ∷ "00904C" ∷ "001EC2" ∷ "083E5D" ∷ "20E52A" ∷ "3C970E"
    ∷ "4C1755" ∷ "60EB69" ∷ "94103E" ∷ "A4ED43" ∷ "ACF1DF" ∷ "D86162" ∷ []

abbrev pub huawei : List String
huawei =
    "001882" ∷ "00464B" ∷ "00E0FC" ∷ "0422F7" ∷ "047975" ∷ "086070" ∷ "0C37DC" ∷ "103140" ∷ "1C8E5C"
    ∷ "200BC7" ∷ "247F3C" ∷ "285FDB" ∷ "2C3557" ∷ "2CAB25" ∷ "34A849" ∷ "3C8782" ∷ "407C7D"
    ∷ "407D0F" ∷ "44CC59" ∷ "48DB50" ∷ "4CBFEE" ∷ "50A72B" ∷ "50ADF7" ∷ "542AEB" ∷ "54511B"
    ∷ "54A51B" ∷ "5CF96A" ∷ "6416F0" ∷ "688A76" ∷ "68CC6E" ∷ "6CF04B" ∷ "704ABE" ∷ "7CB2BD"
    ∷ "84A8E4" ∷ "84BF00" ∷ "8C34FD" ∷ "8CE748" ∷ "900548" ∷ "A0086F" ∷ "A83FA3" ∷ "AC853D"
    ∷ "ACBECE" ∷ "B4430D" ∷ "B47724" ∷ "BC7670" ∷ "C47D4F" ∷ "C8D15E" ∷ "CC53B5" ∷ "D4E6B7"
    ∷ "DC004C" ∷ "E0247F" ∷ "E09496" ∷ "E43682" ∷ "E804A6" ∷ "EC38D0" ∷ "F03E90" ∷ "F4559C"
    ∷ "F48E92" ∷ "F8BFB8" ∷ "FC48EF" ∷ []

abbrev pub sony : List String
sony =
    "001A80" ∷ "0025E7" ∷ "302918" ∷ "40B8B8" ∷ "48590E" ∷ "54E72D" ∷ "6045CB" ∷ "70F1A1" ∷ "84C7E9"
    ∷ "8C647E" ∷ "90CEE9" ∷ "A8B86E" ∷ "D479B4" ∷ "EC26CA" ∷ []

abbrev pub lg : List String
lg =
    "001E75" ∷ "003ADE" ∷ "0088A4" ∷ "14C913" ∷ "1C232C" ∷ "20CF30" ∷ "28277E" ∷ "285192" ∷ "2C54CF"
    ∷ "3868DD" ∷ "40B0FA" ∷ "48599F" ∷ "4C4E35" ∷ "5C4959" ∷ "6417A7" ∷ "686A44" ∷ "6C400A"
    ∷ "843835" ∷ "88C9D0" ∷ "8C3AE3" ∷ "90E7C4" ∷ "B4E62D" ∷ "CC2D8C" ∷ "D812B6" ∷ "E8E5D6"
    ∷ "F04F7C" ∷ []

abbrev pub xiaomi : List String
xiaomi =
    "002021" ∷ "0C1DAF" ∷ "10BA01" ∷ "1486E8" ∷ "18598B" ∷ "28E31F" ∷ "34CE00" ∷ "3C8749" ∷ "404260"
    ∷ "50EC50" ∷ "58440E" ∷ "5C1AC0" ∷ "642737" ∷ "6C4FAE" ∷ "74051B" ∷ "7811DC" ∷ "80F623"
    ∷ "8C97EA" ∷ "9C993A" ∷ "A086C6" ∷ "A4D179" ∷ "AC2251" ∷ "B0E235" ∷ "C436C3" ∷ "D43A78"
    ∷ "D8A959" ∷ "E41078" ∷ "F048EE" ∷ "F4831F" ∷ "FC64BA" ∷ []

abbrev pub oneplus : List String
oneplus =
    "0024D4" ∷ "18B169" ∷ "1C9994" ∷ "380B3B" ∷ "3CA3C1" ∷ "60B735" ∷ "707EA0" ∷ "7C1DA1" ∷ "88D4B7"
    ∷ "A8656C" ∷ "C0C80B" ∷ "E8D7F5" ∷ []

abbrev pub d_link : List String
d_link =
    "000D88" ∷ "000F3D" ∷ "001195" ∷ "001380" ∷ "001CF0" ∷ "0021E8" ∷ "00265A" ∷ "1062EB" ∷ "1C5F2B"
    ∷ "28107B" ∷ "2CA15E" ∷ "340804" ∷ "3C1E04" ∷ "5474A9" ∷ "6006C9" ∷ "6CB2AE" ∷ "74DADA"
    ∷ "788A20" ∷ "8091CA" ∷ "84C9B2" ∷ "906204" ∷ "A8638C" ∷ "BC0F9A" ∷ "C8BE19" ∷ "CCB255"
    ∷ "E46F13" ∷ "F07D68" ∷ []

abbrev pub raspberry_pi : List String
raspberry_pi = "B827EB" ∷ "DCA632" ∷ "E45F01" ∷ []

abbrev pub ubiquiti : List String
ubiquiti =
    "002722" ∷ "049F81" ∷ "24A43C" ∷ "44D9E7" ∷ "68725D" ∷ "788A20" ∷ "80E4DA" ∷ "E063DA" ∷ "F09FC2"
    ∷ "FC4687" ∷ []
